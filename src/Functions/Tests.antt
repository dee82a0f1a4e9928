-- ===== src/Functions/Tests.antt =====
-- Runs of the functions, and applications of the theorems on them.
use octosql.Base.{
  ℕ, ◌-◌, [], ◌∷◌, Bool, true, false, ◌≡◌, refl, none, ok, is_panic, bytes_equal, arith,
}
use octosql.Base.Int.{word_mod}
use octosql.Value.{Value, int, string, bool, tuple, cons, nil, get_type, value_equal}
use octosql.Functions.Function.{FunctionLibraries, execute}
use octosql.Functions.Numbers.{func_least}
use octosql.Functions.Sequences.{func_contains, func_index, func_nth, func_reverse}
use octosql.Functions.Texts.{codes}
use octosql.Functions.Table.{to_duration, function_table}
use octosql.Functions.Safety.{execute-crashes}
use octosql.Functions.TupleLaws.{IsFirst, nth-index}
use octosql.Functions.LeastLaws.{OneOf, NoneLess, least_lem}

abbrev equal_values : Value → Value → Bool
equal_values (string s) (string t) = bytes_equal s t
equal_values v w = value_equal v w

-- Libraries where only the comparison of values matters.
abbrev library : FunctionLibraries
library = record {
  float_of_int = λ w. w;
  int_of_float = λ f. f;
  float_add = λ x y. x;
  float_sub = λ x y. x;
  float_mul = λ x y. x;
  float_div = λ x y. x;
  sqrt = λ x. x;
  floor = λ x. x;
  ceil = λ x. x;
  log2 = λ x. x;
  log1p = λ x. x;
  pow = λ x y. x;
  float_min = λ x y. x;
  float_max = λ x y. x;
  rand_float64 = 0;
  rand_int = 0;
  rand_intn = λ n. 0;
  atoi = λ s. none;
  parse_float = λ s. none;
  to_lower = λ s. s;
  to_upper = λ s. s;
  title = λ s. s;
  replace_all = λ s t u. s;
  find_string = λ s t. none;
  match_string = λ s t. none;
  decode_base32 = λ s. none;
  now = (0, 0);
  time_add = λ t d. t;
  parse_duration = λ s. none;
  parse_time = λ s t. none;
  valid_time = λ s n. true;
  are_equal = equal_values;
}

-- Two months: the validator accepts the unit, and the logic does not know it.
execute-crashes_example :
    is_panic (execute (function_table library to_duration) (int 2 ∷ string (codes "month") ∷ []))
    ≡ true
execute-crashes_example =
    execute-crashes library (λ s t. refl) to_duration (int 2 ∷ string (codes "month") ∷ [])
      (omega arith)

abbrev three_and_seven : Value
three_and_seven = tuple (cons (int 3) (cons (int 7) nil))

nth-index_example :
    (b : Bool) × (execute (func_contains library) (int 7 ∷ three_and_seven ∷ []) ≡ ok (bool b))
    × (b ≡ false
        → execute (func_index library) (int 7 ∷ three_and_seven ∷ []) ≡ ok (int (word_mod - 1)))
    × (b ≡ true
        → (i : ℕ) × (v : Value) × (execute (func_index library) (int 7 ∷ three_and_seven ∷ [])
            ≡ ok (int i))
          × (execute func_nth (int i ∷ three_and_seven ∷ []) ≡ ok v)
          × IsFirst library (int 7) (int 3 ∷ int 7 ∷ []) i v)
nth-index_example = nth-index library (int 7) (cons (int 3) (cons (int 7) nil)) (omega arith)

-- -1 is less than 3.
least_example :
    (m : ℕ) × (execute (func_least library) (int 3 ∷ int 18446744073709551615 ∷ []) ≡ ok (int m))
    × OneOf m (3 ∷ 18446744073709551615 ∷ [])
    × NoneLess m (3 ∷ 18446744073709551615 ∷ [])
least_example = least_lem library 3 (18446744073709551615 ∷ []) (omega arith)

-- A text of runes of one byte is reversed; each further byte of a rune leaves a NUL.
reverse_ascii : execute func_reverse (string (codes "abc") ∷ []) ≡ ok (string (codes "cba"))
unfolding execute func_reverse get_type
reverse_ascii = refl

reverse_wide :
    execute func_reverse (string (195 ∷ 169 ∷ 97 ∷ []) ∷ []) ≡ ok (string (97 ∷ 0 ∷ 195 ∷ 169 ∷ []))
unfolding execute func_reverse get_type
reverse_wide = refl
