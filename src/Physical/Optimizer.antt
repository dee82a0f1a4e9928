-- ===== src/Physical/Optimizer.antt =====
-- physical/optimizer: the scenarios, each with its matcher, its approver and its reassembler. `none`
-- is a node that the scenario does not match, or does not approve.
use octosql.Base.{
  ◌==◌, ℕ, zero, suc, Bool, true, false, not, ◌&&◌, ◌||◌, List, [], ◌∷◌, ◌++◌, Option, none, some,
  Bytes, bytes_equal, if◌then◌else◌, last_of, without_last, get_elem?,
}
use octosql.Physical.Names.{dot, variable_source, variable_name, new_variable_name, subset}
use octosql.Physical.Nodes.{
  DataSource, rebuilt, PlanExpression, variable, no_expressions, PlanFormula, and_formula, PlanNode,
  requalifier, filter, map_node, data_source_builder, Predicate, split_by_and, extract_predicates,
  get_variables, Transformers, transform_formula,
}

unfoldable pub merge_requalifiers : PlanNode → Option PlanNode
merge_requalifiers (requalifier q (requalifier q' n)) = some (requalifier q n)
merge_requalifiers _ = none

unfoldable pub merge_filters : PlanNode → Option PlanNode
merge_filters (filter parent (filter child n)) = some (filter (and_formula parent child) n)
merge_filters _ = none

unfoldable pub remove_empty_maps : PlanNode → Option PlanNode
remove_empty_maps (map_node no_expressions n true) = some n
remove_empty_maps _ = none

-- The transformer of named expressions in `MergeDataSourceBuilderWithRequalifier`.
unfoldable pub requalified : (Bytes → Bytes) → Bytes → PlanExpression → PlanExpression
unfolding variable_source variable_name new_variable_name
requalified to_lower q (variable name) =
    if bytes_equal (variable_source name) []
    then variable name
    else variable (new_variable_name to_lower (q ++ dot ∷ variable_name name))
requalified to_lower q e = e

-- The new builder has no partition and no cardinality.
unfoldable pub merge_builder_with_requalifier : (Bytes → Bytes) → PlanNode → Option PlanNode
unfolding requalified
merge_builder_with_requalifier to_lower (requalifier q (data_source_builder ds f)) =
    let t : Transformers = record { node_t = λ n. n; named_expr_t = requalified to_lower q } in
    some (data_source_builder (rebuilt (record ds { alias = q })) (transform_formula t f))
merge_builder_with_requalifier to_lower _ = none

abbrev pub local_variables : Bytes → List Bytes → List Bytes
local_variables alias [] = []
local_variables alias (x ∷ xs) =
    if bytes_equal (variable_source x) alias
    then x ∷ local_variables alias xs
    else local_variables alias xs

-- Whether a data source checks a predicate, and whether a variable of the source occurs in it.
unfoldable pub predicate_movable : DataSource → Predicate → Bool
unfolding subset
predicate_movable ds (left, r, right) =
    ds.supports_primary r
      && subset ds.primary_keys (local_variables ds.alias (get_variables left))
      && subset ds.primary_keys (local_variables ds.alias (get_variables right))
    || ds.supports_secondary r

abbrev is_empty : List Bytes → Bool
is_empty [] = true
is_empty (x ∷ xs) = false

unfoldable pub has_local_variables : DataSource → Predicate → Bool
has_local_variables ds (left, r, right) =
    not (is_empty (local_variables ds.alias (get_variables left)))
    || not (is_empty (local_variables ds.alias (get_variables right)))

-- The loop over the predicates of one filter: all are movable, and one has a local variable.
unfoldable pub filter_movable : DataSource → Bool → List Predicate → Bool
unfolding predicate_movable has_local_variables
filter_movable ds found [] = found
filter_movable ds found (p ∷ ps) =
    if predicate_movable ds p
    then filter_movable ds (has_local_variables ds p || found) ps
    else false

abbrev pub movable_into : DataSource → PlanFormula → Bool
movable_into ds f = filter_movable ds false (extract_predicates f)

-- The index of the first filter that passes a test, `extractable` of the reassemblers; the approvers
-- ask for one to exist.
unfoldable pub extractable : (PlanFormula → Bool) → List PlanFormula → Option ℕ
extractable test [] = none
extractable test (f ∷ fs) =
    if test f then some zero else elim (extractable test fs) [ none ↦ none | some i ↦ some (suc i) ]

-- `filters[i] = filters[len(filters)-1]`, and then the last one is cut off.
unfoldable pub swap_out : List PlanFormula → ℕ → List PlanFormula
swap_out [] i = []
swap_out (f ∷ fs) zero = elim (last_of fs) [ none ↦ [] | some l ↦ l ∷ without_last fs ]
swap_out (f ∷ fs) (suc i) = f ∷ swap_out fs i

-- The loop that joins the filters that are left.
unfoldable pub join_filters : PlanFormula → List PlanFormula → PlanFormula
join_filters f [] = f
join_filters f (g ∷ gs) = join_filters (and_formula f g) gs

abbrev pub with_filters : List PlanFormula → PlanNode → PlanNode
with_filters [] n = n
with_filters (f ∷ fs) n = filter (join_filters f fs) n

-- A filter taken out of a list, and the others.
abbrev pub take_out :
    (PlanFormula → Bool) → List PlanFormula → Option (PlanFormula × List PlanFormula)
take_out test fs = elim (extractable test fs) [
  | none ↦ none
  | some i ↦ elim (get_elem? fs i) [ none ↦ none | some f ↦ some (f, swap_out fs i) ]
]

unfoldable pub merge_builder_with_filter : PlanNode → Option PlanNode
unfolding split_by_and extract_predicates filter_movable extractable swap_out join_filters
merge_builder_with_filter (filter parent (data_source_builder ds f)) =
    elim (take_out (movable_into ds) (split_by_and parent)) [
      | none ↦ none
      | some (moved, rest) ↦
          some (with_filters rest (data_source_builder (rebuilt ds) (and_formula moved f)))
    ]
merge_builder_with_filter _ = none

-- `const_`.
abbrev const_prefix : Bytes
const_prefix = 99 ∷ 111 ∷ 110 ∷ 115 ∷ 116 ∷ 95 ∷ []

-- `strings.HasPrefix`.
abbrev has_prefix : Bytes → Bytes → Bool
has_prefix [] text = true
has_prefix (p ∷ ps) [] = false
has_prefix (p ∷ ps) (b ∷ bs) = p == b && has_prefix ps bs

-- Whether a variable has a qualifier or is a constant, and whether all variables of predicates are.
unfoldable pub is_source_variable : Bytes → Bool
unfolding variable_source variable_name
is_source_variable vn =
    not (bytes_equal (variable_source vn) []) || has_prefix const_prefix (variable_name vn)

abbrev all_source_variables : List Bytes → Bool
all_source_variables [] = true
all_source_variables (x ∷ xs) = is_source_variable x && all_source_variables xs

unfoldable pub no_local_variables : List Predicate → Bool
unfolding is_source_variable
no_local_variables [] = true
no_local_variables ((left, r, right) ∷ ps) =
    all_source_variables (get_variables left ++ get_variables right) && no_local_variables ps

unfoldable pub push_filter_below_map : PlanNode → Option PlanNode
unfolding split_by_and extract_predicates no_local_variables extractable swap_out join_filters
push_filter_below_map (filter parent (map_node es n keep)) =
    elim (take_out (λ f. no_local_variables (extract_predicates f)) (split_by_and parent)) [
      | none ↦ none
      | some (moved, rest) ↦ some (with_filters rest (map_node es (filter moved n) keep))
    ]
push_filter_below_map _ = none
