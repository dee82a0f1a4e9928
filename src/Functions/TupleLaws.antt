-- ===== src/Functions/TupleLaws.antt =====
-- How the functions on tuples agree with each other.
use octosql.Base.{
  ℕ, zero, suc, ◌-◌, ◌<◌, List, [], ◌∷◌, Bool, true, false, ◌≡◌, refl, none, some, ok, arith,
  length, Bool-cases, inl, inr, ok-injective,
}
use octosql.Base.Int.{sign_bit, word_mod}
use octosql.Value.{Value, Values, get_type, int, bool, string, tuple, as_slice}
use octosql.Functions.Function.{FunctionLibraries, execute}
use octosql.Functions.Sequences.{
  element_at, nth_logic, func_nth, element_index, has_element, contains_logic, func_contains,
  index_logic, func_index, index_value,
}

module _ (lib : FunctionLibraries) where
  contains_lem :
      (x : Value) (vs : Values)
      → execute (func_contains lib) (x ∷ tuple vs ∷ [])
        ≡ ok (bool (has_element lib x (as_slice vs)))
  unfolding execute func_contains contains_logic get_type
  contains_lem (string s) vs = refl
  contains_lem x vs = refl

  index_lem :
      (x : Value) (vs : Values)
      → execute (func_index lib) (x ∷ tuple vs ∷ [])
        ≡ ok (index_value (element_index lib x (as_slice vs)))
  unfolding execute func_index index_logic get_type
  index_lem (string s) vs = refl
  index_lem x vs = refl

  nth_lem :
      (i : ℕ) (vs : Values) {v : Value}
      → length (as_slice vs) < sign_bit
      → i < length (as_slice vs)
      → element_at (as_slice vs) i ≡ ok v
      → execute func_nth (int i ∷ tuple vs ∷ []) ≡ ok v
  unfolding execute func_nth nth_logic get_type
  nth_lem i vs size below e = ground arith

  no_element :
      (x : Value) (vs : List Value) → has_element lib x vs ≡ false → element_index lib x vs ≡ none
  unfolding has_element element_index
  no_element x [] h = refl
  no_element x (v ∷ vs) h = ground (arith, no_element x vs)

  -- The first element that is equal stands at the index.
  pub record IsFirst (x : Value) (vs : List Value) (i : ℕ) (v : Value) : Type 0 where
    pub below : i < length vs
    pub stands : element_at vs i ≡ ok v
    pub equal : lib.are_equal v x ≡ true
    pub first : (j : ℕ) (w : Value) → j < i → element_at vs j ≡ ok w → lib.are_equal w x ≡ false

  later :
      (x v : Value) (vs : List Value) (i : ℕ) (w : Value)
      → lib.are_equal v x ≡ false
      → IsFirst x vs i w
      → (j : ℕ) (u : Value) → j < suc i
      → element_at (v ∷ vs) j ≡ ok u
      → lib.are_equal u x ≡ false
  later x v vs i w e p zero u b l = rw (← ok-injective l) e
  later x v vs i w e p (suc j) u b l = p.first j u (omega arith) l

  IsFirst-element_index :
      (x : Value) (vs : List Value)
      → has_element lib x vs ≡ true
      → (i : ℕ) × (v : Value) × (element_index lib x vs ≡ some i) × IsFirst x vs i v
  unfolding has_element element_index
  IsFirst-element_index x [] h = absurd (cc)
  IsFirst-element_index x (v ∷ vs) h = elim (Bool-cases (lib.are_equal v x)) [
    | inl e ↦ (
      0,
      v,
      rw e refl,
      record {
        below = omega arith;
        stands = refl;
        equal = e;
        first = λ j w l. absurd (omega arith);
      },
    )
    | inr e ↦
        let (i, w, found, p) = IsFirst-element_index x vs (rw e at h) in
        (
          suc i,
          w,
          rw (e, found) refl,
          record {
            below = ground (arith, p.below);
            stands = p.stands;
            equal = p.equal;
            first = later x v vs i w e p;
          },
        )
  ]

  -- On a tuple shorter than 2^63: where `contains` says no, `index` answers -1; where it says yes, `index`
  -- answers the index of the first equal element, which `nth` answers at that index.
  pub nth-index :
      (x : Value) (vs : Values)
      → length (as_slice vs) < sign_bit
      → (b : Bool) × (execute (func_contains lib) (x ∷ tuple vs ∷ []) ≡ ok (bool b))
        × (b ≡ false → execute (func_index lib) (x ∷ tuple vs ∷ []) ≡ ok (int (word_mod - 1)))
        × (b ≡ true
            → (i : ℕ) × (v : Value) × (execute (func_index lib) (x ∷ tuple vs ∷ []) ≡ ok (int i))
              × (execute func_nth (int i ∷ tuple vs ∷ []) ≡ ok v)
              × IsFirst x (as_slice vs) i v)
  nth-index x vs size = (
    has_element lib x (as_slice vs),
    contains_lem x vs,
    (λ h. rw (index_lem x vs, no_element x (as_slice vs) h) refl),
    (λ h.
        let (i, v, found, p) = IsFirst-element_index x (as_slice vs) h in
        (i, v, rw (index_lem x vs, found) refl, nth_lem i vs size p.below p.stands, p)),
  )
