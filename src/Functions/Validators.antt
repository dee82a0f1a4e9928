-- ===== src/Functions/Validators.antt =====
-- execution/functions/validators.go: the checks of the arguments of a function, combined. The messages
-- are left out: an argument that is refused is one error.
use octosql.Base.{
  ℕ, ◌+◌, List, [], ◌∷◌, Outcome, ok, err, panic, ◌>>◌, invalid_argument, ltb, ◌==◌, Bool, not,
  if◌then◌else◌, length, get_elem?, none, some,
}
use octosql.Value.{Value, same_type}

abbrev pub Validator : Type 0
Validator = List Value → Outcome (Unit {0})

abbrev pub SingleArgumentValidator : Type 0
SingleArgumentValidator = Value → Outcome (Unit {0})

abbrev accept_if : Bool → Outcome (Unit {0})
accept_if b = if b then ok tt else err invalid_argument

abbrev pub all : List Validator → Validator
all [] args = ok tt
all (v ∷ vs) args = v args >> all vs args

abbrev pub single_all : List SingleArgumentValidator → SingleArgumentValidator
single_all [] a = ok tt
single_all (v ∷ vs) a = v a >> single_all vs a

-- What a validator answers, or, where it refuses, what the others do.
abbrev or_else : Outcome (Unit {0}) → Outcome (Unit {0}) → Outcome (Unit {0})
or_else (ok _) others = ok tt
or_else (err e) others = others
or_else panic others = panic

abbrev pub one_of : List Validator → Validator
one_of [] args = err invalid_argument
one_of (v ∷ vs) args = or_else (v args) (one_of vs args)

abbrev pub single_one_of : List SingleArgumentValidator → SingleArgumentValidator
single_one_of [] a = err invalid_argument
single_one_of (v ∷ vs) a = or_else (v a) (single_one_of vs a)

abbrev pub if_arg_present : ℕ → Validator → Validator
if_arg_present i v args = if ltb (length args) (i + 1) then ok tt else v args

abbrev pub at_least_n_args : ℕ → Validator
at_least_n_args n args = accept_if (not (ltb (length args) n))

abbrev pub at_most_n_args : ℕ → Validator
at_most_n_args n args = accept_if (not (ltb n (length args)))

abbrev pub exactly_n_args : ℕ → Validator
exactly_n_args n args = accept_if (length args == n)

abbrev pub type_of : Value → SingleArgumentValidator
type_of wanted a = accept_if (same_type wanted a)

-- `equal` is `AreEqual`.
abbrev pub value_of : (Value → Value → Bool) → List Value → SingleArgumentValidator
value_of equal [] a = err invalid_argument
value_of equal (v ∷ vs) a = if equal v a then ok tt else value_of equal vs a

-- An index out of range is a panic.
abbrev pub arg : ℕ → SingleArgumentValidator → Validator
arg i v args = elim (get_elem? args i) [ none ↦ panic | some a ↦ v a ]

abbrev pub all_args : SingleArgumentValidator → Validator
all_args v [] = ok tt
all_args v (a ∷ args) = v a >> all_args v args
