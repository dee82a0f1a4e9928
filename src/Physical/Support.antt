-- ===== src/Physical/Support.antt =====
-- Which filters a data source offers to apply, described without the loops of physical/optimizer.
use octosql.Base.{
  ℕ, suc, Bool, true, false, ◌&&◌, ◌||◌, List, [], ◌∷◌, Bytes, some, ◌≡◌, refl, ◌⊎◌, inl, inr,
  bytes_equal, bytes_equal_iff, arith, Bool-cases, Option-cases, get_elem?,
}
use octosql.Physical.Names.{variable_source, variable_name, contains_variable_name, subset}
use octosql.Physical.Nodes.{
  DataSource, PlanExpression, PlanFormula, Predicate, extract_predicates, get_variables,
}
use octosql.Physical.Optimizer.{
  local_variables, predicate_movable, has_local_variables, filter_movable, movable_into,
  extractable, take_out,
}

abbrev IsAmong : Bytes → List Bytes → Type 0
IsAmong x [] = ⊥
IsAmong x (y ∷ ys) = (x ≡ y) ⊎ IsAmong x ys

-- A name has the name of a primary key.
abbrev IsKey : List Bytes → Bytes → Type 0
IsKey [] x = ⊥
IsKey (k ∷ ks) x = (variable_name x ≡ variable_name k) ⊎ IsKey ks x

-- Of the variables of the source, the expression has primary keys only.
abbrev OnlyKeys : DataSource → PlanExpression → Type 0
OnlyKeys ds e =
    (x : Bytes)
    → IsAmong x (get_variables e)
    → variable_source x ≡ ds.alias
    → IsKey ds.primary_keys x

-- The source offers the relation, for any of its fields or for its primary keys.
abbrev IsOffered : DataSource → Predicate → Type 0
IsOffered ds (left, r, right) =
    (ds.supports_secondary r ≡ true)
    ⊎ ((ds.supports_primary r ≡ true) × OnlyKeys ds left × OnlyKeys ds right)

abbrev pub AllOffered : DataSource → List Predicate → Type 0
AllOffered ds [] = Unit
AllOffered ds (p ∷ ps) = IsOffered ds p × AllOffered ds ps

contains_variable_name-IsKey :
    (ks : List Bytes) (x : Bytes) → contains_variable_name ks x ≡ true → IsKey ks x
unfolding contains_variable_name
contains_variable_name-IsKey [] x h = cc
contains_variable_name-IsKey (k ∷ ks) x h =
    elim (Bool-cases (bytes_equal (variable_name x) (variable_name k))) [
      | inl e ↦ inl ((bytes_equal_iff (variable_name x) (variable_name k)).0 e)
      | inr e ↦ inr (contains_variable_name-IsKey ks x (rw e at h))
    ]

subset-IsKey : (ks xs : List Bytes) (x : Bytes) → subset ks xs ≡ true → IsAmong x xs → IsKey ks x
unfolding subset
subset-IsKey ks [] x h m = absurd m
subset-IsKey ks (y ∷ ys) x h m = elim (Bool-cases (contains_variable_name ks y)) [
  | inl c ↦ elim m [
    | inl e ↦ rw e (contains_variable_name-IsKey ks y c)
    | inr m' ↦ subset-IsKey ks ys x (rw c at h) m'
  ]
  | inr c ↦ let h' = rw c at h in cc
]

local_variables-IsAmong :
    (alias : Bytes) (xs : List Bytes) (x : Bytes)
    → IsAmong x xs
    → variable_source x ≡ alias
    → IsAmong x (local_variables alias xs)
local_variables-IsAmong alias [] x m e = m
local_variables-IsAmong alias (y ∷ ys) x (inl same) e =
    rw (← same, (bytes_equal_iff (variable_source x) alias).1 e) (inl refl)
local_variables-IsAmong alias (y ∷ ys) x (inr m) e =
    elim (Bool-cases (bytes_equal (variable_source y) alias)) [
      | inl c ↦ rw c (inr (local_variables-IsAmong alias ys x m e))
      | inr c ↦ rw c (local_variables-IsAmong alias ys x m e)
    ]

first_three :
    (a b c s : Bool) → s ≡ false → (a && b && c || s) ≡ true → (a ≡ true) × (b ≡ true) × (c ≡ true)
first_three a b c s e h = ground arith

predicate_movable-IsOffered :
    (ds : DataSource) (p : Predicate) → predicate_movable ds p ≡ true → IsOffered ds p
unfolding predicate_movable
predicate_movable-IsOffered ds (left, r, right) h = elim (Bool-cases (ds.supports_secondary r)) [
  | inl s ↦ inl s
  | inr s ↦
      let (a, b, c) = first_three _ _ _ _ s h in
      inr (
        a,
        (λ x m e. subset-IsKey ds.primary_keys _ x b (local_variables-IsAmong ds.alias _ x m e)),
        (λ x m e. subset-IsKey ds.primary_keys _ x c (local_variables-IsAmong ds.alias _ x m e)),
      )
]

filter_movable-AllOffered :
    (ds : DataSource) (found : Bool) (ps : List Predicate)
    → filter_movable ds found ps ≡ true
    → AllOffered ds ps
unfolding filter_movable
filter_movable-AllOffered ds found [] h = tt
filter_movable-AllOffered ds found (p ∷ ps) h = elim (Bool-cases (predicate_movable ds p)) [
  | inl m ↦ (
    predicate_movable-IsOffered ds p m,
    filter_movable-AllOffered ds (has_local_variables ds p || found) ps (rw m at h),
  )
  | inr m ↦ let h' = rw m at h in cc
]

extractable-passes :
    (test : PlanFormula → Bool) (fs : List PlanFormula) (i : ℕ) (f : PlanFormula)
    → extractable test fs ≡ some i
    → get_elem? fs i ≡ some f
    → test f ≡ true
unfolding extractable
extractable-passes test [] i f h e = cc
extractable-passes test (g ∷ gs) i f h e = elim (Bool-cases (test g)) [
  | inl t ↦
      let h' = rw t at h in
      let zeroth : i ≡ 0 = cc in let e' = rw zeroth at e in let same : g ≡ f = cc in rw (← same) t
  | inr t ↦ elim (Option-cases (extractable test gs)) [
    | inl n ↦ let h' = rw (t, n) at h in cc
    | inr (i', n) ↦
        let h' = rw (t, n) at h in
        let next : i ≡ suc i' = cc in extractable-passes test gs i' f n (rw next at e)
  ]
]

pub movable_into-AllOffered :
    (ds : DataSource) (fs : List PlanFormula) (f : PlanFormula) (rest : List PlanFormula)
    → take_out (movable_into ds) fs ≡ some (f, rest)
    → AllOffered ds (extract_predicates f)
movable_into-AllOffered ds fs f rest h = elim (Option-cases (extractable (movable_into ds) fs)) [
  | inl e ↦ let h' = rw (e, take_out) at h in cc
  | inr (i, e) ↦ elim (Option-cases (get_elem? fs i)) [
    | inl e' ↦ let h' = rw (e, e', take_out) at h in cc
    | inr (g, e') ↦
        let h' = rw (e, e', take_out) at h in
        let same : g ≡ f = cc in
        let movable : movable_into ds f ≡ true =
          rw (← same) (extractable-passes (movable_into ds) fs i g e e') in
        filter_movable-AllOffered ds false (extract_predicates f) movable
  ]
]
