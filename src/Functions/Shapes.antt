-- ===== src/Functions/Shapes.antt =====
-- Checks of arguments that several functions have: where the logic does not panic on the arguments that
-- such a check lets through, a call does not panic.
use octosql.Base.{
  ℕ, List, [], ◌∷◌, Bytes, Bool, ◌≡◌, refl, Outcome, ok, err, panic, is_panic, ◌>>◌, arith, false,
}
use octosql.Value.{Value, Values, get_type, int, float, bool, string, tuple}
use octosql.Functions.Validators.{Validator}
use octosql.Functions.Function.{execute, one_number, one_text, one_text_or_tuple}
use octosql.Functions.Numbers.{one_scalar}
use octosql.Functions.Sequences.{two_texts, texts_or_tuple}

-- Two parts that do not panic.
pub then_safe :
    {A : Type 0} (checked : Outcome (Unit {0})) (rest : Outcome A)
    → is_panic checked ≡ false
    → is_panic rest ≡ false
    → is_panic (checked >> rest) ≡ false
then_safe (ok u) rest h k = k
then_safe (err e) rest h k = refl
then_safe panic rest h k = h

module _ (logic : List Value → Outcome Value) where
  -- Whether a call panics, of a function with this logic and a check.
  abbrev pub panics : Validator → List Value → Bool
  panics v args = is_panic (execute (record { validator = v; logic = logic }) args)

  pub one_number_safe :
      ((w : ℕ) → is_panic (logic (int w ∷ [])) ≡ false)
      → ((f : ℕ) → is_panic (logic (float f ∷ [])) ≡ false)
      → (args : List Value) → panics one_number args ≡ false
  unfolding execute get_type
  one_number_safe h k [] = refl
  one_number_safe h k (int w ∷ []) = h w
  one_number_safe h k (float f ∷ []) = k f
  one_number_safe h k (v ∷ []) = refl
  one_number_safe h k (v ∷ w ∷ args) = ground arith

  pub one_scalar_safe :
      ((w : ℕ) → is_panic (logic (int w ∷ [])) ≡ false)
      → ((f : ℕ) → is_panic (logic (float f ∷ [])) ≡ false)
      → ((b : Bool) → is_panic (logic (bool b ∷ [])) ≡ false)
      → ((s : Bytes) → is_panic (logic (string s ∷ [])) ≡ false)
      → (args : List Value) → panics one_scalar args ≡ false
  unfolding execute get_type
  one_scalar_safe h k l m [] = refl
  one_scalar_safe h k l m (int w ∷ []) = h w
  one_scalar_safe h k l m (float f ∷ []) = k f
  one_scalar_safe h k l m (bool b ∷ []) = l b
  one_scalar_safe h k l m (string s ∷ []) = m s
  one_scalar_safe h k l m (v ∷ []) = refl
  one_scalar_safe h k l m (v ∷ w ∷ args) = ground arith

  pub one_text_safe :
      ((s : Bytes) → is_panic (logic (string s ∷ [])) ≡ false)
      → (args : List Value) → panics one_text args ≡ false
  unfolding execute get_type
  one_text_safe h [] = refl
  one_text_safe h (string s ∷ []) = h s
  one_text_safe h (v ∷ []) = refl
  one_text_safe h (v ∷ w ∷ args) = ground arith

  pub one_text_or_tuple_safe :
      ((s : Bytes) → is_panic (logic (string s ∷ [])) ≡ false)
      → ((vs : Values) → is_panic (logic (tuple vs ∷ [])) ≡ false)
      → (args : List Value) → panics one_text_or_tuple args ≡ false
  unfolding execute get_type
  one_text_or_tuple_safe h k [] = refl
  one_text_or_tuple_safe h k (string s ∷ []) = h s
  one_text_or_tuple_safe h k (tuple vs ∷ []) = k vs
  one_text_or_tuple_safe h k (v ∷ []) = refl
  one_text_or_tuple_safe h k (v ∷ w ∷ args) = ground arith

  pub two_texts_safe :
      ((v w : Value) → is_panic (logic (v ∷ w ∷ [])) ≡ false)
      → (args : List Value) → panics two_texts args ≡ false
  unfolding execute get_type
  two_texts_safe h [] = refl
  two_texts_safe h (v ∷ []) = refl
  two_texts_safe h (string s ∷ string t ∷ []) = h (string s) (string t)
  two_texts_safe h (string s ∷ w ∷ []) = refl
  two_texts_safe h (v ∷ w ∷ []) = refl
  two_texts_safe h (v ∷ w ∷ x ∷ args) = ground arith

  pub texts_or_tuple_safe :
      ((s t : Bytes) → is_panic (logic (string s ∷ string t ∷ [])) ≡ false)
      → ((v : Value) (vs : Values) → is_panic (logic (v ∷ tuple vs ∷ [])) ≡ false)
      → (args : List Value) → panics texts_or_tuple args ≡ false
  unfolding execute get_type
  texts_or_tuple_safe h k [] = refl
  texts_or_tuple_safe h k (v ∷ []) = refl
  texts_or_tuple_safe h k (string s ∷ string t ∷ []) = h s t
  texts_or_tuple_safe h k (string s ∷ tuple vs ∷ []) = k (string s) vs
  texts_or_tuple_safe h k (string s ∷ w ∷ []) = refl
  texts_or_tuple_safe h k (v ∷ tuple vs ∷ []) = k v vs
  texts_or_tuple_safe h k (v ∷ w ∷ []) = refl
  texts_or_tuple_safe h k (v ∷ w ∷ x ∷ args) = ground arith
