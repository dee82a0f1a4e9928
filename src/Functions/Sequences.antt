-- ===== src/Functions/Sequences.antt =====
-- execution/functions/functions.go: the functions on texts and tuples.
use octosql.Base.{
  ℕ, zero, suc, ◌-◌, List, [], ◌∷◌, Bytes, Bool, false, Option, none, some, Outcome, ok, err, panic,
  ◌>>=◌, undefined_result, ◌||◌, if◌then◌else◌, length, take, drop, is_some,
}
use octosql.Base.Int.{word_mod, int_less}
use octosql.Value.{Value, int, bool, string, tuple, nil, as_slice, make_tuple}
use octosql.Aggregates.{as_int}
use octosql.Functions.Validators.{
  Validator, all, one_of, exactly_n_args, at_least_n_args, at_most_n_args, type_of, arg, all_args,
  if_arg_present,
}
use octosql.Functions.Function.{Function, FunctionLibraries, one_text_or_tuple}
use octosql.Functions.Texts.{
  runes_by_byte, encode_runes, has_prefix, has_suffix, string_index, one_later, join,
}
use mathlib.Core.List.{reverse}

abbrev pub as_text : Value → Bytes
as_text (string s) = s
as_text _ = []

abbrev pub two_texts : Validator
two_texts = all (exactly_n_args 2 ∷ all_args (type_of (string [])) ∷ [])

abbrev pub texts_or_tuple : Validator
texts_or_tuple = all (
    exactly_n_args 2
    ∷ one_of (all_args (type_of (string [])) ∷ arg 1 (type_of (tuple nil)) ∷ [])
    ∷ [])

-- `str[start:end]`
abbrev pub slice_bytes : Bytes → ℕ → ℕ → Outcome Bytes
slice_bytes s start end =
    if int_less start 0 || (int_less end start || int_less (length s) end)
    then panic
    else ok (take (end - start) (drop start s))

unfoldable pub reverse_logic : List Value → Outcome Value
unfolding runes_by_byte
reverse_logic (string s ∷ _) = ok (string (encode_runes (reverse (runes_by_byte 0 s))))
reverse_logic (tuple vs ∷ _) = ok (tuple (make_tuple (reverse (as_slice vs))))
reverse_logic _ = panic

unfoldable pub func_reverse : Function
unfolding reverse_logic
func_reverse = record { validator = one_text_or_tuple; logic = reverse_logic }

unfoldable pub substring_logic : List Value → Outcome Value
substring_logic (s ∷ start ∷ []) =
    slice_bytes (as_text s) (as_int start) (length (as_text s)) >>= λ t. ok (string t)
substring_logic (s ∷ start ∷ end ∷ []) =
    slice_bytes (as_text s) (as_int start) (as_int end) >>= λ t. ok (string t)
substring_logic (s ∷ start ∷ _) =
    slice_bytes (as_text s) (as_int start) (length (as_text s)) >>= λ t. ok (string t)
substring_logic _ = panic

unfoldable pub func_substring : Function
unfolding substring_logic
func_substring = record {
  validator = all (
      at_least_n_args 2
      ∷ at_most_n_args 3
      ∷ arg 0 (type_of (string []))
      ∷ arg 1 (type_of (int 0))
      ∷ if_arg_present 2 (arg 2 (type_of (int 0)))
      ∷ []);
  logic = substring_logic;
}

unfoldable pub has_prefix_logic : List Value → Outcome Value
has_prefix_logic (p ∷ text ∷ _) = ok (bool (has_prefix (as_text text) (as_text p)))
has_prefix_logic _ = panic

unfoldable pub func_has_prefix : Function
unfolding has_prefix_logic
func_has_prefix = record { validator = two_texts; logic = has_prefix_logic }

unfoldable pub has_suffix_logic : List Value → Outcome Value
has_suffix_logic (p ∷ text ∷ _) = ok (bool (has_suffix (as_text text) (as_text p)))
has_suffix_logic _ = panic

unfoldable pub func_has_suffix : Function
unfolding has_suffix_logic
func_has_suffix = record { validator = two_texts; logic = has_suffix_logic }

-- The element at an index; one out of range is a panic.
abbrev pub element_at : List Value → ℕ → Outcome Value
element_at [] i = panic
element_at (v ∷ vs) zero = ok v
element_at (v ∷ vs) (suc i) = element_at vs i

unfoldable pub nth_logic : List Value → Outcome Value
nth_logic (n ∷ tuple vs ∷ _) =
    if int_less (length (as_slice vs)) (as_int n)
    then err undefined_result
    else if int_less (as_int n) 0
    then panic
    else element_at (as_slice vs) (as_int n)
nth_logic _ = panic

unfoldable pub func_nth : Function
unfolding nth_logic
func_nth = record {
  validator = all (exactly_n_args 2 ∷ arg 0 (type_of (int 0)) ∷ arg 1 (type_of (tuple nil)) ∷ []);
  logic = nth_logic;
}

unfoldable pub length_logic : List Value → Outcome Value
length_logic (string s ∷ _) = ok (int (length s))
length_logic (tuple vs ∷ _) = ok (int (length (as_slice vs)))
length_logic _ = panic

unfoldable pub func_length : Function
unfolding length_logic
func_length = record { validator = one_text_or_tuple; logic = length_logic }

-- The loop of `strjoin`: the texts, where all are.
unfoldable pub all_texts : List Value → Outcome (List Bytes)
all_texts [] = ok []
all_texts (string s ∷ vs) = all_texts vs >>= λ texts. ok (s ∷ texts)
all_texts (_ ∷ vs) = err undefined_result

unfoldable pub string_join_logic : List Value → Outcome Value
unfolding all_texts join
string_join_logic (delimiter ∷ tuple vs ∷ _) =
    all_texts (as_slice vs) >>= λ texts. ok (string (join texts (as_text delimiter)))
string_join_logic _ = panic

unfoldable pub func_string_join : Function
unfolding string_join_logic
func_string_join = record {
  validator =
      all (exactly_n_args 2 ∷ arg 0 (type_of (string [])) ∷ arg 1 (type_of (tuple nil)) ∷ []);
  logic = string_join_logic;
}

-- `int` of an index, where -1 stands for none.
abbrev pub index_value : Option ℕ → Value
index_value none = int (word_mod - 1)
index_value (some i) = int i

module _ (lib : FunctionLibraries) where
  -- The loops over a tuple.
  unfoldable pub element_index : Value → List Value → Option ℕ
  element_index x [] = none
  element_index x (v ∷ vs) =
      let later = one_later (element_index x vs) in if lib.are_equal v x then some 0 else later

  unfoldable pub has_element : Value → List Value → Bool
  has_element x [] = false
  has_element x (v ∷ vs) = lib.are_equal v x || has_element x vs

  unfoldable pub contains_logic : List Value → Outcome Value
  unfolding string_index has_element
  contains_logic (sub ∷ string s ∷ _) = ok (bool (is_some (string_index s (as_text sub))))
  contains_logic (x ∷ tuple vs ∷ _) = ok (bool (has_element x (as_slice vs)))
  contains_logic _ = panic

  unfoldable pub func_contains : Function
  unfolding contains_logic
  func_contains = record { validator = texts_or_tuple; logic = contains_logic }

  unfoldable pub index_logic : List Value → Outcome Value
  unfolding string_index element_index
  index_logic (sub ∷ string s ∷ _) = ok (index_value (string_index s (as_text sub)))
  index_logic (x ∷ tuple vs ∷ _) = ok (index_value (element_index x (as_slice vs)))
  index_logic _ = panic

  unfoldable pub func_index : Function
  unfolding index_logic
  func_index = record { validator = texts_or_tuple; logic = index_logic }
