-- ===== src/Physical/OptimizerLaws.antt =====
-- Rewritten filters let the same records pass.
use octosql.Base.{
  ℕ, zero, suc, ◌≡◌, refl, sym, ap, ◌∙◌, Bool, true, false, ◌&&◌, List, [], ◌∷◌, ◌++◌, some,
  Option-cases, inl, inr, Outcome, ok, err, panic, ◌>>=◌, >>=-eq-ok, after_ok, ok-injective,
  if◌then◌else◌, last_of, without_last, get_elem?,
}
use mathlib.Core.Path.{subst}
use octosql.Expression.Relation.{Libraries}
use octosql.Expression.Formula.{Formula, evaluate, conjunction}
use octosql.Physical.Nodes.{
  DataSource, rebuilt, PlanFormula, constant_formula, and_formula, or_formula, not_formula,
  predicate_formula, PlanNode, requalifier, map_node, filter, data_source_builder, split_by_and,
  extract_predicates,
}
use octosql.Physical.Support.{AllOffered, movable_into-AllOffered}
use octosql.Physical.Optimizer.{
  merge_filters, extractable, swap_out, join_filters, with_filters, take_out, movable_into,
  merge_builder_with_filter,
}
use octosql.Physical.Meaning.{Execution, materialize_formula, formula_value, passes}

-- The values of a conjunction, when its sides are materialized to `left` and `right`.
and_value :
    {Env : Type 0} → Libraries → Env → Outcome (Formula Env) → Outcome (Formula Env) → Outcome Bool
and_value lib env left right = do
  formula ← do f ← left; g ← right; ok (conjunction f g)
  evaluate lib env formula

and_value_parts :
    {Env : Type 0} (lib : Libraries) (env : Env) (left right : Outcome (Formula Env)) (b : Bool)
    → and_value lib env left right ≡ ok b
    → (c : Bool) × (d : Bool) × ((left >>= evaluate lib env) ≡ ok c)
      × ((right >>= evaluate lib env) ≡ ok d)
      × (b ≡ c && d)
unfolding and_value evaluate
and_value_parts lib env (ok f) (ok g) b h =
    let (c, e, k) = >>=-eq-ok (evaluate lib env f) _ h in
    let (d, e', l) = >>=-eq-ok (evaluate lib env g) _ k in (c, d, e, e', sym (ok-injective l))
and_value_parts lib env (ok f) (err e) b h = cc
and_value_parts lib env (ok f) panic b h = cc
and_value_parts lib env (err e) right b h = cc
and_value_parts lib env panic right b h = cc

and_value_joins :
    {Env : Type 0} (lib : Libraries) (env : Env) (left right : Outcome (Formula Env)) (c d : Bool)
    → (left >>= evaluate lib env) ≡ ok c
    → (right >>= evaluate lib env) ≡ ok d
    → and_value lib env left right ≡ ok (c && d)
unfolding and_value evaluate
and_value_joins lib env (ok f) (ok g) c d h k = after_ok _ h (after_ok _ k refl)
and_value_joins lib env (ok f) (err e) c d h k = cc
and_value_joins lib env (ok f) panic c d h k = cc
and_value_joins lib env (err e) right c d h k = cc
and_value_joins lib env panic right c d h k = cc

and_assoc : (a b c : Bool) → (a && b) && c ≡ a && (b && c)
and_assoc true b c = refl
and_assoc false b c = refl

and_true : (b : Bool) → b ≡ b && true
and_true true = refl
and_true false = refl

and_comm : (a b : Bool) → a && b ≡ b && a
and_comm true true = refl
and_comm true false = refl
and_comm false true = refl
and_comm false false = refl

-- A value taken out of a conjunction, and one joined to it.
swapped : (a b c : Bool) → a && (b && c) ≡ b && (a && c)
swapped true b c = refl
swapped false true c = refl
swapped false false c = refl

module _ (x : Execution) (env : x.Env) where
  abbrev pub Gives : PlanFormula → Bool → Type 0
  Gives f b = formula_value x f env ≡ ok b

  -- The formulas have values, and `b` is their conjunction.
  abbrev AllGive : List PlanFormula → Bool → Type 0
  AllGive [] b = b ≡ true
  AllGive (f ∷ fs) b = (c : Bool) × (d : Bool) × Gives f c × AllGive fs d × (b ≡ c && d)

  and_parts :
      (f g : PlanFormula) (b : Bool)
      → Gives (and_formula f g) b
      → (c : Bool) × (d : Bool) × Gives f c × Gives g d × (b ≡ c && d)
  unfolding formula_value materialize_formula and_value
  and_parts f g b h =
      and_value_parts x.libraries env (materialize_formula x f) (materialize_formula x g) b h

  pub and_joins :
      (f g : PlanFormula) (c d : Bool) → Gives f c → Gives g d → Gives (and_formula f g) (c && d)
  unfolding formula_value materialize_formula and_value
  and_joins f g c d h k =
      and_value_joins x.libraries env (materialize_formula x f) (materialize_formula x g) c d h k

  AllGive-append :
      (fs gs : List PlanFormula) (c d : Bool)
      → AllGive fs c
      → AllGive gs d
      → AllGive (fs ++ gs) (c && d)
  AllGive-append [] gs c d h k = rw h k
  AllGive-append (f ∷ fs) gs c d (a, b, hf, hs, e) k =
      (a, b && d, hf, AllGive-append fs gs b d hs k, rw e (and_assoc a b d))

  AllGive-split_by_and : (f : PlanFormula) (b : Bool) → Gives f b → AllGive (split_by_and f) b
  unfolding split_by_and
  AllGive-split_by_and (and_formula f g) b h =
      let (c, d, hf, hg, e) = and_parts f g b h in
      rw e (
        AllGive-append (split_by_and f) (split_by_and g) c d (AllGive-split_by_and f c hf)
          (AllGive-split_by_and g d hg))
  AllGive-split_by_and (or_formula f g) b h = (b, true, h, refl, and_true b)
  AllGive-split_by_and (not_formula f) b h = (b, true, h, refl, and_true b)
  AllGive-split_by_and (constant_formula c) b h = (b, true, h, refl, and_true b)
  AllGive-split_by_and (predicate_formula l r e) b h = (b, true, h, refl, and_true b)

  -- The last formula in front of the others.
  last_first :
      (f : PlanFormula) (fs : List PlanFormula) (b : Bool)
      → AllGive (f ∷ fs) b
      → (l : PlanFormula) × (last_of (f ∷ fs) ≡ some l) × AllGive (l ∷ without_last (f ∷ fs)) b
  last_first f [] b h = (f, refl, h)
  last_first f (g ∷ gs) b (c, d, hf, hs, e) =
      let (l, q, (c', d', hl, hr, e')) = last_first g gs d hs in
      (l, q, (c', c && d', hl, (c, d', hf, hr, refl), e ∙ ap (λ k. c && k) e' ∙ swapped c c' d'))

  taken_out :
      (fs : List PlanFormula) (i : ℕ) (f : PlanFormula) (b : Bool)
      → AllGive fs b
      → get_elem? fs i ≡ some f
      → (c : Bool) × (d : Bool) × Gives f c × AllGive (swap_out fs i) d × (b ≡ c && d)
  unfolding swap_out
  taken_out [] i f b h e = cc
  taken_out (g ∷ []) zero f b (c, d, hf, hs, q) e =
      let same : g ≡ f = cc in (c, d, subst (λ k. Gives k c) same hf, hs, q)
  taken_out (g ∷ k ∷ ks) zero f b (c, d, hf, hs, q) e =
      let same : g ≡ f = cc in
      let (l, p, hl) = last_first k ks d hs in
      (c, d, subst (λ k. Gives k c) same hf, rw (p, AllGive) hl, q)
  taken_out (g ∷ gs) (suc i) f b (c, d, hf, hs, q) e =
      let (c', d', h', hs', q') = taken_out gs i f d hs e in
      (c', c && d', h', (c, d', hf, hs', refl), q ∙ ap (λ k. c && k) q' ∙ swapped c c' d')

  Gives-join_filters :
      (f : PlanFormula) (fs : List PlanFormula) (c d : Bool)
      → Gives f c
      → AllGive fs d
      → Gives (join_filters f fs) (c && d)
  unfolding join_filters
  Gives-join_filters f [] c d h k = rw k (h ∙ ap ok (and_true c))
  Gives-join_filters f (g ∷ gs) c d h (a, b, hg, hs, e) = rw e (
      rw (← and_assoc c a b)
        (Gives-join_filters (and_formula f g) gs (c && a) b (and_joins f g c a h hg) hs))

  take_out_lem :
      (test : PlanFormula → Bool) (fs : List PlanFormula) (f : PlanFormula)
      (rest : List PlanFormula) (b : Bool)
      → take_out test fs ≡ some (f, rest)
      → AllGive fs b
      → (c : Bool) × (d : Bool) × Gives f c × AllGive rest d × (b ≡ c && d)
  take_out_lem test fs f rest b h k = elim (Option-cases (extractable test fs)) [
    | inl e ↦ let h' = rw (e, take_out) at h in cc
    | inr (i, e) ↦ elim (Option-cases (get_elem? fs i)) [
      | inl e' ↦ let h' = rw (e, e', take_out) at h in cc
      | inr (g, e') ↦
          let h' = rw (e, e', take_out) at h in
          let same : g ≡ f = cc in
          let others : swap_out fs i ≡ rest = cc in
          subst (λ r. (c : Bool) × (d : Bool) × Gives f c × AllGive r d × (b ≡ c && d)) others
            (taken_out fs i f b k (e' ∙ ap some same))
    ]
  ]

  -- Filters put on a node, where the formulas and the node have values.
  passes-with_filters :
      (fs : List PlanFormula) (n : PlanNode) (c d : Bool)
      → passes x n env ≡ ok c
      → AllGive fs d
      → passes x (with_filters fs n) env ≡ ok (c && d)
  unfolding passes
  passes-with_filters [] n c d h k = h ∙ ap ok (rw k (and_true c))
  passes-with_filters (f ∷ fs) n true d h (a, b, hf, hs, e) =
      after_ok _ h (rw e (Gives-join_filters f fs a b hf hs))
  passes-with_filters (f ∷ fs) n false d h k = after_ok _ h refl

  passes-filter :
      (f : PlanFormula) (n : PlanNode) (c d : Bool)
      → passes x n env ≡ ok c
      → Gives f d
      → passes x (filter f n) env ≡ ok (c && d)
  unfolding passes
  passes-filter f n true d h k = after_ok _ h k
  passes-filter f n false d h k = after_ok _ h refl

  -- A data source applies what it offers: with such a filter joined to another one it delivers, of what
  -- it delivers with the other one, the records that satisfy the filter.
  abbrev pub AppliesOffered : DataSource → Type 0
  AppliesOffered ds =
      (g f : PlanFormula) (c d : Bool)
      → AllOffered ds (extract_predicates g)
      → Gives g c
      → x.source_delivers ds.source_name ds.alias ds.partition f env ≡ ok d
      → x.source_delivers ds.source_name ds.alias ds.partition (and_formula g f) env ≡ ok (c && d)

  -- Of a builder for the partition 0 of a data source that applies the filters it offers: where the
  -- source answers whether it delivers a record and the filter above has a value on it, moving a part of
  -- the filter above into the builder keeps whether the record passes.
  pub merge_builder_with_filter-passes :
      (parent : PlanFormula) (ds : DataSource) (f : PlanFormula) (merged : PlanNode) (p q : Bool)
      → AppliesOffered ds
      → ds.partition ≡ 0
      → merge_builder_with_filter (filter parent (data_source_builder ds f)) ≡ some merged
      → Gives parent p
      → passes x (data_source_builder ds f) env ≡ ok q
      → passes x merged env ≡ passes x (filter parent (data_source_builder ds f)) env
  unfolding merge_builder_with_filter passes
  merge_builder_with_filter-passes parent ds f merged p q applies first h hp hq =
      elim (Option-cases (take_out (movable_into ds) (split_by_and parent))) [
        | inl e ↦ let h' = rw (e, merge_builder_with_filter) at h in cc
        | inr ((moved, rest), e) ↦
            let (c, d, hm, hr, eq) =
              take_out_lem _ (split_by_and parent) moved rest p e
                (AllGive-split_by_and parent p hp) in
            let offered = movable_into-AllOffered ds (split_by_and parent) moved rest e in
            let delivered : passes x (data_source_builder (rebuilt ds) (and_formula moved f)) env
                ≡ ok (c && q) =
              ap (λ k. x.source_delivers ds.source_name ds.alias k (and_formula moved f) env)
                (sym first)
              ∙ applies moved f c q offered hm hq in
            let built =
              passes-with_filters rest (data_source_builder (rebuilt ds) (and_formula moved f))
                (c && q) d delivered hr in
            let h' = rw (e, merge_builder_with_filter) at h in
            let same : with_filters rest (data_source_builder (rebuilt ds) (and_formula moved f))
                ≡ merged =
              cc in
            ap (λ n. passes x n env) (sym same)
            ∙ built
            ∙ ap ok (and_assoc c q d ∙ swapped c q d ∙ ap (λ k. q && k) (sym eq))
            ∙ sym (passes-filter parent (data_source_builder ds f) q p hq hp)
      ]

  two_filters :
      (parent child : PlanFormula) (n : PlanNode) (delivered b : Bool)
      → passes x n env ≡ ok delivered
      → (if delivered then formula_value x (and_formula parent child) env else ok false) ≡ ok b
      → passes x (filter parent (filter child n)) env ≡ ok b
  unfolding passes
  two_filters parent child n true b e r =
      let (c, d, hp, hc, q) = and_parts parent child b r in
      passes-filter parent (filter child n) d c (passes-filter child n true d e hc) hp
      ∙ ap ok (and_comm d c ∙ sym q)
  two_filters parent child n false b e r = after_ok _ (after_ok _ e refl) r

  -- Where the merged filter has a value on a record, the two filters, one after the other, have it too.
  pub merge_filters-passes :
      (n merged : PlanNode) (b : Bool)
      → merge_filters n ≡ some merged
      → passes x merged env ≡ ok b
      → passes x n env ≡ ok b
  unfolding merge_filters passes
  merge_filters-passes (filter parent (filter child n)) merged b h k =
      let same : filter (and_formula parent child) n ≡ merged = cc in
      let (delivered, e, r) = >>=-eq-ok (passes x n env) _ (ap (λ m. passes x m env) same ∙ k) in
      two_filters parent child n delivered b e r
  merge_filters-passes (filter f (requalifier q n)) merged b h k = cc
  merge_filters-passes (filter f (map_node es n keep)) merged b h k = cc
  merge_filters-passes (filter f (data_source_builder ds g)) merged b h k = cc
  merge_filters-passes (requalifier q n) merged b h k = cc
  merge_filters-passes (map_node es n keep) merged b h k = cc
  merge_filters-passes (data_source_builder ds g) merged b h k = cc
