-- ===== src/Functions/LeastLaws.antt =====
-- What `least` answers on ints.
use octosql.Base.{
  ℕ, ◌<◌, List, [], ◌∷◌, true, false, ◌≡◌, refl, ok, arith, Bool-cases, inl, inr, ◌⊎◌, ◌∙◌,
}
use octosql.Base.Int.{int_less, signed, ◌≤ℤ◌, word_mod}
use octosql.Value.{Value, get_type, int}
use octosql.Functions.Function.{FunctionLibraries, execute}
use octosql.Functions.Validators.{at_least_n_args, all_args, type_of}
use octosql.Functions.Numbers.{int_min, least_int, max_int64, least_logic, func_least}

abbrev pub ints : List ℕ → List Value
ints [] = []
ints (w ∷ ws) = int w ∷ ints ws

abbrev pub AllWords : List ℕ → Type 0
AllWords [] = Unit
AllWords (w ∷ ws) = (w < word_mod) × AllWords ws

-- A word is one of some.
abbrev pub OneOf : ℕ → List ℕ → Type 0
OneOf m [] = ⊥
OneOf m (w ∷ ws) = (m ≡ w) ⊎ OneOf m ws

abbrev pub NoneLess : ℕ → List ℕ → Type 0
NoneLess m [] = Unit
NoneLess m (w ∷ ws) = (signed m ≤ℤ signed w) × NoneLess m ws

ints_accepted : (ws : List ℕ) → all_args (type_of (int 0)) (ints ws) ≡ ok tt
unfolding get_type
ints_accepted [] = refl
ints_accepted (w ∷ ws) = ints_accepted ws

enough_accepted : (v : Value) (args : List Value) → at_least_n_args 1 (v ∷ args) ≡ ok tt
enough_accepted v args = ground arith

min_below : (w start : ℕ) → int_less w start ≡ true → signed w ≤ℤ signed start
min_below w start h = ground arith

min_above : (w start : ℕ) → int_less w start ≡ false → signed start ≤ℤ signed w
min_above w start h = ground arith

≤ℤ_trans : (a b c : ℕ) → signed a ≤ℤ signed b → signed b ≤ℤ signed c → signed a ≤ℤ signed c
≤ℤ_trans a b c h k = omega arith

-- What the loop has found from a start: the start or one of the words, and none of them is less.
abbrev Found : ℕ → ℕ → List ℕ → Type 0
Found start m ws = ((m ≡ start) ⊎ OneOf m ws) × (signed m ≤ℤ signed start) × NoneLess m ws

Found-cons : (start w m : ℕ) (ws : List ℕ) → Found (int_min start w) m ws → Found start m (w ∷ ws)
Found-cons start w m ws f = elim (Bool-cases (int_less w start)) [
  | inl b ↦
      let (o, l, n) : Found w m ws = rw b at f in
      (inr o, ≤ℤ_trans m w start l (min_below w start b), (l, n))
  | inr b ↦
      let (o, l, n) : Found start m ws = rw b at f in
      (
        elim o [ inl e ↦ inl e | inr x ↦ inr (inr x) ],
        l,
        (≤ℤ_trans m start w l (min_above w start b), n),
      )
]

least_from : (start : ℕ) (ws : List ℕ) → Found start (least_int start (ints ws)) ws
least_from start [] = (inl refl, omega arith, tt)
least_from start (w ∷ ws) =
    Found-cons start w (least_int (int_min start w) (ints ws)) ws (least_from (int_min start w) ws)

greatest_word : (w : ℕ) → w < word_mod → signed max_int64 ≤ℤ signed w → max_int64 ≡ w
greatest_word w h k = ground arith

-- The start of the loop, which no int exceeds, is found only where it is one of them.
OneOf-max_int64 :
    (m w : ℕ) (ws : List ℕ) → w < word_mod → Found max_int64 m (w ∷ ws) → OneOf m (w ∷ ws)
OneOf-max_int64 m w ws h (inl e, l, (n, ns)) = inl (e ∙ greatest_word w h (rw e at n))
OneOf-max_int64 m w ws h (inr o, l, n) = o

module _ (lib : FunctionLibraries) where
  -- On one or more ints, `least` answers one of them, and none of them is less.
  pub least_lem :
      (w : ℕ) (ws : List ℕ)
      → AllWords (w ∷ ws)
      → (m : ℕ) × (execute (func_least lib) (ints (w ∷ ws)) ≡ ok (int m))
        × OneOf m (w ∷ ws)
        × NoneLess m (w ∷ ws)
  unfolding execute func_least least_logic get_type
  least_lem w ws h =
      let found = least_from max_int64 (w ∷ ws) in
      (
        least_int max_int64 (ints (w ∷ ws)),
        rw (enough_accepted (int w) (ints ws), ints_accepted ws) refl,
        OneOf-max_int64 _ w ws h.0 found,
        found.2,
      )
