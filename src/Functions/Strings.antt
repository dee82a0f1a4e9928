-- ===== src/Functions/Strings.antt =====
-- execution/functions/functions.go: the functions on texts that rest on Go's packages for them.
use octosql.Base.{List, [], ◌∷◌, Bytes, Outcome, ok, panic, ◌>>=◌}
use octosql.Value.{Value, null, bool, string}
use octosql.Functions.Validators.{all, exactly_n_args, type_of, all_args}
use octosql.Functions.Function.{Function, FunctionLibraries, or_failure, one_text}
use octosql.Functions.Sequences.{as_text, two_texts}

module _ (lib : FunctionLibraries) where
  unfoldable pub lower_logic : List Value → Outcome Value
  lower_logic (text ∷ _) = ok (string (lib.to_lower (as_text text)))
  lower_logic _ = panic

  unfoldable pub func_lower : Function
  unfolding lower_logic
  func_lower = record { validator = one_text; logic = lower_logic }

  unfoldable pub upper_logic : List Value → Outcome Value
  upper_logic (text ∷ _) = ok (string (lib.to_upper (as_text text)))
  upper_logic _ = panic

  unfoldable pub func_upper : Function
  unfolding upper_logic
  func_upper = record { validator = one_text; logic = upper_logic }

  unfoldable pub capitalize_logic : List Value → Outcome Value
  capitalize_logic (text ∷ _) = ok (string (lib.title (lib.to_lower (as_text text))))
  capitalize_logic _ = panic

  unfoldable pub func_capitalize : Function
  unfolding capitalize_logic
  func_capitalize = record { validator = one_text; logic = capitalize_logic }

  -- `FindString` yields the empty text where nothing matches.
  abbrev text_or_null : Bytes → Value
  text_or_null [] = null
  text_or_null (b ∷ bs) = string (b ∷ bs)

  unfoldable pub regexp_find_logic : List Value → Outcome Value
  regexp_find_logic (re ∷ text ∷ _) =
      or_failure (lib.find_string (as_text re) (as_text text)) >>= λ m. ok (text_or_null m)
  regexp_find_logic _ = panic

  unfoldable pub func_regexp_find : Function
  unfolding regexp_find_logic
  func_regexp_find = record { validator = two_texts; logic = regexp_find_logic }

  unfoldable pub regexp_matches_logic : List Value → Outcome Value
  regexp_matches_logic (re ∷ text ∷ _) =
      or_failure (lib.match_string (as_text re) (as_text text)) >>= λ b. ok (bool b)
  regexp_matches_logic _ = panic

  unfoldable pub func_regexp_matches : Function
  unfolding regexp_matches_logic
  func_regexp_matches = record { validator = two_texts; logic = regexp_matches_logic }

  unfoldable pub replace_logic : List Value → Outcome Value
  replace_logic (old ∷ new ∷ text ∷ _) =
      ok (string (lib.replace_all (as_text text) (as_text old) (as_text new)))
  replace_logic _ = panic

  unfoldable pub func_replace : Function
  unfolding replace_logic
  func_replace = record {
    validator = all (exactly_n_args 3 ∷ all_args (type_of (string [])) ∷ []);
    logic = replace_logic;
  }

  unfoldable pub decode_base32_logic : List Value → Outcome Value
  decode_base32_logic (text ∷ _) =
      or_failure (lib.decode_base32 (as_text text)) >>= λ t. ok (string t)
  decode_base32_logic _ = panic

  unfoldable pub func_decode_base32 : Function
  unfolding decode_base32_logic
  func_decode_base32 = record {
    validator = all (exactly_n_args 1 ∷ all_args (type_of (string [])) ∷ []);
    logic = decode_base32_logic;
  }
