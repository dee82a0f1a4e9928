-- ===== src/Expression/Relation.antt =====
-- execution/relation.go: the relations. `AreEqual` is protobuf's comparison and the matching of
-- regular expressions is Go's: both are parameters.
use octosql.Base.{
  ℕ, ◌&&◌, Bool, true, false, not, List, [], ◌∷◌, if◌then◌else◌, Outcome, ok, err, panic, ◌>>=◌,
  Bytes, bytes_less, invalid_operands,
}
use octosql.Base.Int.{int_less}
use octosql.Value.{
  Value, zero_value, int, float, string, time, tuple, get_type, same_type, float_less, time_before,
  as_slice,
}
use octosql.Expression.Like.{like_pattern_to_regexp}

-- What the relations call of the libraries.
pub record Libraries : Type 0 where
  -- `proto.Equal` of two values.
  pub are_equal : Value → Value → Bool
  -- The times that protobuf accepts; `AsTime` panics on any other one.
  pub valid_time : ℕ → ℕ → Bool
  -- `regexp.MatchString`, of a pattern and a text; it fails on a pattern that does not parse.
  pub match_string : Bytes → Bytes → Outcome Bool

-- The relation names of the constructors `NewEqual` and so on.
pub data Relation : Type 0 where
  equal not_equal more_than less_than greater_equal less_equal like in_list not_in regexp : Relation

abbrev pub negated : Outcome Bool → Outcome Bool
negated r = r >>= λ b. ok (not b)

module _ (lib : Libraries) where
  -- The switch of `MoreThan` on two values of one type.
  unfoldable pub more_than_same : Value → Value → Outcome Bool
  more_than_same (int x) (int y) = ok (int_less y x)
  more_than_same (float x) (float y) = ok (float_less y x)
  more_than_same (string x) (string y) = ok (bytes_less y x)
  more_than_same (time s n) (time s' n') =
      if lib.valid_time s n && lib.valid_time s' n' then ok (time_before s' n' s n) else panic
  more_than_same zero_value w = panic
  more_than_same v w = err invalid_operands

  unfoldable pub apply_more_than : Value → Value → Outcome Bool
  unfolding get_type more_than_same
  apply_more_than v w = if same_type v w then more_than_same v w else err invalid_operands

  unfoldable pub apply_less_than : Value → Value → Outcome Bool
  unfolding apply_more_than
  apply_less_than v w = apply_more_than w v

  unfoldable pub apply_equal : Value → Value → Outcome Bool
  unfolding get_type
  apply_equal v w = if same_type v w then ok (lib.are_equal v w) else err invalid_operands

  -- The loop of `In` over the elements of a tuple.
  unfoldable pub any_equal : Value → List Value → Bool
  any_equal v [] = false
  any_equal v (w ∷ ws) = if lib.are_equal v w then true else any_equal v ws

  unfoldable pub apply_in : Value → Value → Outcome Bool
  unfolding any_equal
  apply_in v (tuple ws) = ok (any_equal v (as_slice ws))
  apply_in v w = ok (lib.are_equal v w)

  unfoldable pub apply_like : Value → Value → Outcome Bool
  unfolding like_pattern_to_regexp
  apply_like (string s) (string p) = do
    pattern ← like_pattern_to_regexp p
    lib.match_string pattern s
  apply_like v w = err invalid_operands

  unfoldable pub apply_regexp : Value → Value → Outcome Bool
  apply_regexp (string s) (string p) = lib.match_string p s
  apply_regexp v w = err invalid_operands

  -- `Relation.Apply` on the values of the two operands.
  unfoldable pub apply_relation : Relation → Value → Value → Outcome Bool
  unfolding apply_equal apply_less_than apply_in apply_like apply_regexp
  apply_relation equal v w = apply_equal v w
  apply_relation not_equal v w = negated (apply_equal v w)
  apply_relation more_than v w = apply_more_than v w
  apply_relation less_than v w = apply_less_than v w
  apply_relation greater_equal v w = negated (apply_less_than v w)
  apply_relation less_equal v w = negated (apply_more_than v w)
  apply_relation like v w = apply_like v w
  apply_relation in_list v w = apply_in v w
  apply_relation not_in v w = negated (apply_in v w)
  apply_relation regexp v w = apply_regexp v w
