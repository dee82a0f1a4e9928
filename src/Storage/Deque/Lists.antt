-- ===== src/Storage/Deque/Lists.antt =====
-- A deque as the list of its elements, front first, and how the slots hold a list.
use octosql.Base.{
  last_of, without_last, ℕ, zero, suc, ◌+◌, ◌-◌, ◌%◌, ◌≤◌, ◌<◌, ◌≡◌, ◌≢◌, refl, sym, ap, ◌∙◌, List,
  [], ◌∷◌, ◌++◌, Option, none, some, length, length-append, get_elem?, ◌==◌, ==_iff, if◌then◌else◌,
  arith, Bool-cases, inl, inr,
}
use octosql.Base.Int.{word_mod, sign_bit}
use octosql.Value.{Value}
use octosql.Storage.Deque.{front_spot, back_spot, increase, decrease}
use octosql.Storage.Deque.Slots.{Spots, Slots, with_spot, with_slot}
use octosql.Storage.Deque.Machine.{popped_spots, popped_slots}

module _ {ℓ} {A : Type ℓ} where
  abbrev pub first_of : List A → Option A
  first_of [] = none
  first_of (x ∷ xs) = some x

  abbrev pub without_first : List A → List A
  without_first [] = []
  without_first (x ∷ xs) = xs

  get_elem?-first : (xs : List A) → get_elem? xs 0 ≡ first_of xs
  get_elem?-first [] = refl
  get_elem?-first (x ∷ xs) = refl

  beyond : (xs : List A) (i : ℕ) → length xs ≤ i → get_elem? xs i ≡ none
  beyond [] i h = refl
  beyond (x ∷ xs) zero h = absurd (omega arith)
  beyond (x ∷ xs) (suc i) h = beyond xs i (omega arith)

  get_elem?-append_last :
      (xs : List A) (x : A) (i : ℕ)
      → get_elem? (xs ++ x ∷ []) i ≡ (if i == length xs then some x else get_elem? xs i)
  get_elem?-append_last [] x zero = refl
  get_elem?-append_last [] x (suc i) = ground arith
  get_elem?-append_last (y ∷ xs) x zero = ground arith
  get_elem?-append_last (y ∷ xs) x (suc i) = ground (arith, get_elem?-append_last xs x i)

  get_elem?-without_last :
      (xs : List A) (i : ℕ)
      → get_elem? (without_last xs) i ≡ (if i + 1 == length xs then none else get_elem? xs i)
  get_elem?-without_last [] i = ground arith
  get_elem?-without_last (x ∷ []) zero = ground arith
  get_elem?-without_last (x ∷ []) (suc i) = ground arith
  get_elem?-without_last (x ∷ y ∷ ys) zero = ground arith
  get_elem?-without_last (x ∷ y ∷ ys) (suc i) = ground (arith, get_elem?-without_last (y ∷ ys) i)

  get_elem?-last : (x : A) (xs : List A) → get_elem? (x ∷ xs) (length xs) ≡ last_of (x ∷ xs)
  get_elem?-last x [] = refl
  get_elem?-last x (y ∷ ys) = get_elem?-last y ys

  pub length-without_last : (x : A) (xs : List A) → length (without_last (x ∷ xs)) ≡ length xs
  length-without_last x [] = refl
  length-without_last x (y ∷ ys) = ap suc (length-without_last y ys)

-- The slot behind the front spot holds the first element, and so on; no other slot is taken.
abbrev pub slot_index : ℕ → ℕ → ℕ
slot_index front i = (front + 1 + i) % word_mod

abbrev pub HoldsList : Spots → Slots → List Value → Type 0
HoldsList g sl xs =
    (g front_spot < word_mod)
    × (g back_spot ≡ slot_index (g front_spot) (length xs))
    × (length xs + 2 < sign_bit)
    × ((i : ℕ) → i < word_mod → sl (slot_index (g front_spot) i) ≡ get_elem? xs i)

-- Arithmetic of indices modulo 2^64.
different :
    (f k i : ℕ)
    → f < word_mod
    → k < word_mod
    → i < word_mod
    → i ≢ k
    → slot_index f k ≢ slot_index f i
different f k i bf bk bi n e = n (omega arith)

earlier_first : (f : ℕ) → f < word_mod → f ≡ slot_index (decrease f) 0
earlier_first f b = omega arith

earlier :
    (f k : ℕ) → f < word_mod → suc k < word_mod → slot_index (decrease f) (suc k) ≡ slot_index f k
earlier f k b l = omega arith

away : (f k : ℕ) → f < word_mod → suc k < word_mod → f ≢ slot_index f k
away f k b l e = omega arith

later : (f b n m : ℕ) → f < word_mod → b ≡ slot_index f n → m ≡ n + 1 → increase b ≡ slot_index f m
later f b n m bf e h = omega arith

first_index : (f : ℕ) → f < word_mod → increase f ≡ slot_index f 0
first_index f b = omega arith

next_index :
    (f i : ℕ) → f < word_mod → suc i < word_mod → slot_index (increase f) i ≡ slot_index f (suc i)
next_index f i b l = omega arith

round : (f i : ℕ) → f < word_mod → i + 1 ≡ word_mod → increase f ≡ slot_index (increase f) i
round f i b e = omega arith

empty_last :
    (f b : ℕ) → f < word_mod → b ≡ slot_index f 0 → decrease b ≡ slot_index f (word_mod - 1)
empty_last f b l e = omega arith

last_index : (f b n : ℕ) → f < word_mod → b ≡ slot_index f (suc n) → decrease b ≡ slot_index f n
last_index f b n l e = omega arith

same_test :
    (i n : ℕ) (x : Option Value)
    → (if i + 1 == suc n then none else x) ≡ (if i == n then none else x)
same_test i n x = ground arith

not_front : (i : ℕ) (x : Option Value) → (if suc i == 0 then none else x) ≡ x
not_front i x = ground arith

hit : (sl : Slots) (i j : ℕ) (x : Option Value) → i ≡ j → with_slot sl i x j ≡ x
hit sl i j x e = ground arith

miss : (sl : Slots) (i j : ℕ) (x : Option Value) → i ≢ j → with_slot sl i x j ≡ sl j
miss sl i j x n = ground arith

-- A slot written at the offset `k`, seen at the offset `i`.
with_slot_at :
    (sl : Slots) (f k i : ℕ) (x : Option Value)
    → f < word_mod
    → k < word_mod
    → i < word_mod
    → with_slot sl (slot_index f k) x (slot_index f i) ≡ (if i == k then x else sl (slot_index f i))
with_slot_at sl f k i x bf bk bi = elim (Bool-cases (i == k)) [
  | inl t ↦
      rw t (hit sl (slot_index f k) (slot_index f i) x (ap (slot_index f) (sym ((==_iff i k).0 t))))
  | inr n ↦ rw n (
      miss sl (slot_index f k) (slot_index f i) x
        (different f k i bf bk bi λ e. cc (n, (==_iff i k).1 e)))
]

module _ (g : Spots) (sl : Slots) (xs : List Value) (h : HoldsList g sl xs) where
  pushed_front :
      (v : Value) (i : ℕ)
      → i < word_mod
      → with_slot sl (g front_spot) (some v) (slot_index (decrease (g front_spot)) i)
        ≡ get_elem? (v ∷ xs) i
  pushed_front v zero l = hit sl (g front_spot) _ (some v) (earlier_first (g front_spot) h.0)
  pushed_front v (suc k) l =
      let e = earlier (g front_spot) k h.0 l in
      rw e (
        miss sl (g front_spot) (slot_index (g front_spot) k) (some v) (away (g front_spot) k h.0 l)
        ∙ h.3 k (omega arith))

  pub push_front-HoldsList :
      (v : Value)
      → length xs + 3 < sign_bit
      → HoldsList
          (with_spot g front_spot (decrease (g front_spot)))
          (with_slot sl (g front_spot) (some v))
          (v ∷ xs)
  push_front-HoldsList v b = (
    omega arith,
    h.1 ∙ sym (earlier (g front_spot) (length xs) h.0 (omega arith)),
    omega arith,
    pushed_front v,
  )

  pushed_back :
      (v : Value) (i : ℕ)
      → i < word_mod
      → with_slot sl (g back_spot) (some v) (slot_index (g front_spot) i)
        ≡ get_elem? (xs ++ v ∷ []) i
  pushed_back v i l =
      rw (h.1, with_slot_at sl (g front_spot) (length xs) i (some v) h.0 (omega arith) l, h.3 i l)
        (sym (get_elem?-append_last xs v i))

  pub push_back-HoldsList :
      (v : Value)
      → length xs + 3 < sign_bit
      → HoldsList
          (with_spot g back_spot (increase (g back_spot)))
          (with_slot sl (g back_spot) (some v))
          (xs ++ v ∷ [])
  push_back-HoldsList v b =
      let n = length-append xs (v ∷ []) in
      (
        h.0,
        later (g front_spot) (g back_spot) (length xs) (length (xs ++ v ∷ [])) h.0 h.1 n,
        omega arith,
        pushed_back v,
      )

  -- The slot behind the front spot, and the one before the back spot.
  pub first_slot : sl (increase (g front_spot)) ≡ first_of xs
  first_slot = ap sl (first_index (g front_spot) h.0) ∙ h.3 0 (omega arith) ∙ get_elem?-first xs

pub last_slot :
    (g : Spots) (sl : Slots) (xs : List Value)
    → HoldsList g sl xs
    → sl (decrease (g back_spot)) ≡ last_of xs
last_slot g sl [] (bf, b, n, h) =
    ap sl (empty_last (g front_spot) (g back_spot) bf b) ∙ h (word_mod - 1) (omega arith)
last_slot g sl (x ∷ xs) (bf, b, n, h) =
    ap sl (last_index (g front_spot) (g back_spot) (length xs) bf b)
    ∙ h (length xs) (omega arith)
    ∙ get_elem?-last x xs

taken_first :
    (g : Spots) (sl : Slots) (x : Value) (xs : List Value) (i : ℕ)
    → HoldsList g sl (x ∷ xs)
    → i < word_mod
    → with_slot sl (increase (g front_spot)) none (slot_index (increase (g front_spot)) i)
      ≡ get_elem? xs i
taken_first g sl x xs i (bf, b, n, h) l = elim (Bool-cases (i + 1 == word_mod)) [
  | inl t ↦
      hit sl (increase (g front_spot)) _ none
        (round (g front_spot) i bf ((==_iff (i + 1) word_mod).0 t))
      ∙ sym (beyond xs i (omega (arith, (==_iff (i + 1) word_mod).0 t)))
  | inr t ↦
      let c : suc i < word_mod = ground arith in
      rw (next_index (g front_spot) i bf c, first_index (g front_spot) bf)
        (with_slot_at sl (g front_spot) 0 (suc i) none bf (omega arith) c
          ∙ not_front i (sl (slot_index (g front_spot) (suc i)))
          ∙ h (suc i) c)
]

pub pop_front-HoldsList :
    (g : Spots) (sl : Slots) (xs : List Value)
    → HoldsList g sl xs
    → HoldsList
        (popped_spots g front_spot (increase (g front_spot)) (first_of xs))
        (popped_slots sl (increase (g front_spot)) (first_of xs))
        (without_first xs)
pop_front-HoldsList g sl [] h = h
pop_front-HoldsList g sl (x ∷ xs) h = (
  omega arith,
  h.1 ∙ sym (next_index (g front_spot) (length xs) h.0 (omega (arith, h.2))),
  omega (arith, h.2),
  λ i l. taken_first g sl x xs i h l,
)

last_of-some : (x : Value) (xs : List Value) → (y : Value) × (last_of (x ∷ xs) ≡ some y)
last_of-some x [] = (x, refl)
last_of-some x (y ∷ ys) = last_of-some y ys

taken_last :
    (g : Spots) (sl : Slots) (x : Value) (xs : List Value) (i : ℕ)
    → HoldsList g sl (x ∷ xs)
    → i < word_mod
    → with_slot sl (decrease (g back_spot)) none (slot_index (g front_spot) i)
      ≡ get_elem? (without_last (x ∷ xs)) i
taken_last g sl x xs i (bf, b, n, h) l =
    rw
      (
        last_index (g front_spot) (g back_spot) (length xs) bf b,
        with_slot_at sl (g front_spot) (length xs) i none bf (omega arith) l,
        h i l,
      )
      (sym (get_elem?-without_last (x ∷ xs) i ∙ same_test i (length xs) (get_elem? (x ∷ xs) i)))

pub pop_back-HoldsList :
    (g : Spots) (sl : Slots) (xs : List Value)
    → HoldsList g sl xs
    → HoldsList
        (popped_spots g back_spot (decrease (g back_spot)) (last_of xs))
        (popped_slots sl (decrease (g back_spot)) (last_of xs))
        (without_last xs)
pop_back-HoldsList g sl [] h = h
pop_back-HoldsList g sl (x ∷ xs) (bf, b, n, h) =
    let (y, e) = last_of-some x xs in
    let d = last_index (g front_spot) (g back_spot) (length xs) bf b in
    let m = length-without_last x xs in
    rw e (
      bf,
      d ∙ ap (slot_index (g front_spot)) (sym m),
      omega arith,
      λ i l. taken_last g sl x xs i (bf, b, n, h) l,
    )
