-- ===== src/Functions/Units.antt =====
-- The units of `duration`, and the calls of it that end the process.
use octosql.Base.{
  ℕ, List, [], ◌∷◌, Bytes, true, false, ◌≡◌, refl, none, some, err, is_panic, arith, bytes_equal,
  bytes_equal_iff, Bool-cases, Option-cases, invalid_argument, inl, inr, ◌∙◌, sym,
}
use octosql.Value.{Value, get_type, int, string}
use octosql.Functions.Function.{FunctionLibraries, execute}
use octosql.Functions.Operators.{
  duration_logic, func_duration, unit_table, units_of, month, texts, unit_factors,
}
use octosql.Functions.Validators.{value_of}
use octosql.Functions.Shapes.{then_safe}
use octosql.Functions.Texts.{codes}
use octosql.Functions.Crashes.{to_duration_crashes}

module _ (lib : FunctionLibraries) where
  -- `AreEqual` compares texts by their bytes.
  abbrev pub ComparesTexts : Type 0
  ComparesTexts = (s t : Bytes) → lib.are_equal (string s) (string t) ≡ bytes_equal s t

  module _ (equal : ComparesTexts) where
    month_panics :
        (n : ℕ) → is_panic (execute (func_duration lib) (int n ∷ string month ∷ [])) ≡ true
    unfolding execute func_duration duration_logic get_type
    month_panics n =
        rw
          (
            equal (codes "nanosecond") month,
            equal (codes "microsecond") month,
            equal (codes "millisecond") month,
            equal (codes "second") month,
            equal (codes "minute") month,
            equal (codes "hour") month,
            equal (codes "day") month,
            equal month month,
          )
          refl

    value_of_safe : (vs : List Value) (v : Value) → is_panic (value_of lib.are_equal vs v) ≡ false
    value_of_safe [] v = refl
    value_of_safe (w ∷ vs) v = ground (arith, value_of_safe vs v)

    units_safe :
        (n : ℕ) (u : Bytes)
        → is_panic ((func_duration lib).validator (int n ∷ string u ∷ [])) ≡ false
    unfolding func_duration get_type
    units_safe n u =
        ground (arith, value_of_safe (texts (units_of unit_table) (string month ∷ [])) (string u))

    value_of_unknown :
        (table : List (Bytes × (ℕ × ℕ))) (u : Bytes) (rest : List Value)
        → unit_factors table u ≡ none
        → value_of lib.are_equal (texts (units_of table) rest) (string u)
          ≡ value_of lib.are_equal rest (string u)
    unfolding unit_factors
    value_of_unknown [] u rest e = refl
    value_of_unknown ((unit, f) ∷ table) u rest e = elim (Bool-cases (bytes_equal unit u)) [
      | inl b ↦ cc
      | inr b ↦ rw (equal unit u, b) (value_of_unknown table u rest (rw b at e))
    ]

    value_of_no_month :
        (u : Bytes)
        → bytes_equal month u ≡ false
        → value_of lib.are_equal (string month ∷ []) (string u) ≡ err invalid_argument
    value_of_no_month u m = rw (equal month u, m) refl

    logic_safe :
        (n : ℕ) (u : Bytes) (f : ℕ × ℕ)
        → unit_factors unit_table u ≡ some f
        → is_panic (duration_logic lib (int n ∷ string u ∷ [])) ≡ false
    unfolding duration_logic
    logic_safe n u f e = rw (duration_logic, e) refl

    no_month_panics :
        (n : ℕ) (u : Bytes)
        → bytes_equal month u ≡ false
        → is_panic (execute (func_duration lib) (int n ∷ string u ∷ [])) ≡ false
    unfolding execute func_duration duration_logic get_type
    no_month_panics n u m = elim (Option-cases (unit_factors unit_table u)) [
      | inl e ↦ rw (value_of_unknown unit_table u (string month ∷ []) e, value_of_no_month u m) refl
      | inr (f, e) ↦
          then_safe ((func_duration lib).validator (int n ∷ string u ∷ [])) _ (units_safe n u)
            (logic_safe n u f e)
    ]

    pub to_duration_panics :
        (args : List Value) → is_panic (execute (func_duration lib) args) ≡ to_duration_crashes args
    unfolding execute func_duration duration_logic get_type
    to_duration_panics [] = refl
    to_duration_panics (string s ∷ []) = ground arith
    to_duration_panics (v ∷ []) = refl
    to_duration_panics (int n ∷ string u ∷ []) = elim (Bool-cases (bytes_equal month u)) [
      | inl e ↦ rw (← (bytes_equal_iff month u).0 e) (month_panics n)
      | inr e ↦ no_month_panics n u e ∙ sym e
    ]
    to_duration_panics (int n ∷ w ∷ []) = refl
    to_duration_panics (v ∷ int n ∷ []) = refl
    to_duration_panics (v ∷ w ∷ []) = refl
    to_duration_panics (v ∷ w ∷ x ∷ args) = ground arith
