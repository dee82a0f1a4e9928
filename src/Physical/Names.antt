-- ===== src/Physical/Names.antt =====
-- variables.go: the names of variables, a qualifier and a name with a dot between them.
use octosql.Base.{
  ℕ, Bool, true, false, ◌||◌, List, [], ◌∷◌, Option, none, some, Bytes, bytes_equal, ◌==◌,
  if◌then◌else◌,
}

abbrev pub dot : ℕ
dot = 46

-- The name cut at its first dot, where there is one.
abbrev pub split_at_dot : Bytes → Option (Bytes × Bytes)
split_at_dot [] = none
split_at_dot (b ∷ bs) =
    if b == dot
    then some ([], bs)
    else elim (split_at_dot bs) [ none ↦ none | some (l, r) ↦ some (b ∷ l, r) ]

unfoldable pub variable_source : Bytes → Bytes
variable_source name = elim (split_at_dot name) [ none ↦ [] | some (l, r) ↦ l ]

unfoldable pub variable_name : Bytes → Bytes
variable_name name = elim (split_at_dot name) [ none ↦ name | some (l, r) ↦ r ]

abbrev without_first_dot : Bytes → Bytes
without_first_dot [] = []
without_first_dot (b ∷ bs) = if b == dot then bs else b ∷ bs

-- `strings.ToLower` is a parameter.
unfoldable pub new_variable_name : (Bytes → Bytes) → Bytes → Bytes
new_variable_name to_lower name = to_lower (without_first_dot name)

-- `containsVariableName` and `subset` of the optimizer: names are compared without their qualifiers.
unfoldable pub contains_variable_name : List Bytes → Bytes → Bool
unfolding variable_name
contains_variable_name [] vn = false
contains_variable_name (x ∷ xs) vn =
    bytes_equal (variable_name vn) (variable_name x) || contains_variable_name xs vn

unfoldable pub subset : List Bytes → List Bytes → Bool
unfolding contains_variable_name
subset set [] = true
subset set (x ∷ xs) = if contains_variable_name set x then subset set xs else false
