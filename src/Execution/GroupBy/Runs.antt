-- ===== src/Execution/GroupBy/Runs.antt =====
-- Runs of a group: records that arrive and triggers, in any order.
use octosql.Base.{
  is_some, ℕ, suc, ◌+◌, ◌%◌, ◌<◌, ◌≡◌, refl, sym, ap, ◌∙◌, Bool, true, false, List, [], ◌∷◌, ◌++◌,
  Option, none, ok, after_ok, ltb, ◌==◌, ==_iff, if◌then◌else◌, arith, Bool-cases, inl, inr,
}
use mathlib.Core.Path.{subst}
use octosql.Base.Int.{int_add, int_sub, int_positive, word_mod, sign_bit}
use octosql.Value.{int, Values}
use octosql.Storage.{StorageOps, StorageLaws}
use octosql.Storage.Cells.{HoldsWord, written_word, cleared_word, empty_word}
use octosql.Execution.Records.{Record}
use octosql.Execution.GroupBy.{
  GroupLibraries, GroupByStream, GroupState, add_record, optional, trigger, Step, arrives,
  triggered, run_group,
}
use octosql.Execution.GroupBy.Outputs.{RecordComparison, Follows, quiet, Follows-append, Agrees}
use octosql.Execution.GroupBy.Consistency.{
  AllWork, HasData, Agrees-tuple_values, update_aggregates_works, optional-found,
  current_values_lem, sent_lem,
}

-- How many of the records of a run come in, and how many are undone.
abbrev pub added_count :
    {o : StorageOps} {lib : GroupLibraries} {g : GroupByStream} → List (Step o lib g) → ℕ
added_count [] = 0
added_count (arrives r ∷ steps) =
    if r.metadata.undo then added_count steps else suc (added_count steps)
added_count (triggered ∷ steps) = added_count steps

abbrev pub undone_count :
    {o : StorageOps} {lib : GroupLibraries} {g : GroupByStream} → List (Step o lib g) → ℕ
undone_count [] = 0
undone_count (arrives r ∷ steps) =
    if r.metadata.undo then suc (undone_count steps) else undone_count steps
undone_count (triggered ∷ steps) = undone_count steps

abbrev next_count : Record → ℕ → ℕ
next_count r w = if r.metadata.undo then int_sub w 1 else int_add w 1

next_count_bound : (r : Record) (w : ℕ) → next_count r w < word_mod
next_count_bound r w = ground arith

pub positive_count :
    (w added undone : ℕ)
    → w < word_mod
    → added + undone < sign_bit
    → (w + undone) % word_mod ≡ (0 + added) % word_mod
    → int_positive w ≡ ltb undone added
positive_count w added undone b h e = ground arith

arrived_balance :
    (undo : Bool) (w w' added undone : ℕ)
    → w < word_mod
    → (w' + undone) % word_mod ≡ ((if undo then int_sub w 1 else int_add w 1) + added) % word_mod
    → (w' + (if undo then suc undone else undone)) % word_mod
      ≡ (w + (if undo then added else suc added)) % word_mod
arrived_balance true w w' added undone b e = omega arith
arrived_balance false w w' added undone b e = omega arith

module _ (o : StorageOps) (laws : StorageLaws o) (lib : GroupLibraries) (cmp : RecordComparison lib)
    (g : GroupByStream) (work : AllWork g.aggregates) where
  trigger_lem :
      (s : GroupState o lib g) (shown : Option Values) (w : ℕ)
      → Agrees cmp.Same shown (laws.content s.previously_triggered)
      → HoldsWord o s.record_count w
      → (out : List Record) × (s' : GroupState o lib g) × (shown' : Option Values) × (trigger o lib
            g s
          ≡ ok (out, s'))
        × Follows cmp.Same shown out shown'
        × Agrees cmp.Same shown' (laws.content s'.previously_triggered)
        × (is_some shown' ≡ int_positive w)
        × (s'.record_count ≡ s.record_count)
  unfolding trigger
  trigger_lem s shown w a h =
      let e1 = ap optional (laws.cell_get_lem s.previously_triggered) ∙ optional-found _ in
      let (values, s1, e3, k, rc, p) = current_values_lem o laws lib cmp g work s w in
      let (previous, e2, a2) =
        Agrees-tuple_values o laws lib cmp g work shown (laws.content s.previously_triggered) a in
      let (out, s', shown', e4, f, a', q, rc') =
        sent_lem o laws lib cmp g work previous values shown s1 a2 k in
      (
        out,
        s',
        shown',
        after_ok _ e1 (after_ok _ e2 (after_ok _ h (after_ok _ e3 e4))),
        f,
        a',
        q ∙ p,
        rc' ∙ rc,
      )

  add_record_lem :
      (s : GroupState o lib g) (r : Record) (w : ℕ)
      → HasData r
      → HoldsWord o s.record_count w
      → (s' : GroupState o lib g) × (add_record o lib g s r ≡ ok s')
        × HoldsWord o s'.record_count (next_count r w)
        × (s'.previously_triggered ≡ s.previously_triggered)
  unfolding add_record
  add_record_lem s r w filled h =
      let n = next_count r w in
      let (states', u) = update_aggregates_works lib g.aggregates s.states r filled work in
      let choice = λ (b : Bool).
        if b then o.cell_clear s.record_count else o.cell_set s.record_count (int n) in
      elim (Bool-cases (n == 0)) [
        | inl z ↦
            let c = ap choice z ∙ laws.cell_clear_lem s.record_count in
            (
              _,
              after_ok _ h (after_ok _ c (after_ok _ u refl)),
              subst (λ k. HoldsWord o (laws.write s.record_count none) k) (sym ((==_iff n 0).0 z))
                  (cleared_word o laws s.record_count),
              refl,
            )
        | inr z ↦
            let c = ap choice z ∙ laws.cell_set_lem s.record_count (int n) in
            (
              _,
              after_ok _ h (after_ok _ c (after_ok _ u refl)),
              written_word o laws s.record_count n,
              refl,
            )
      ]

  -- Each record has a value for each of its names.
  abbrev pub AllHaveData : List (Step o lib g) → Type 0
  AllHaveData [] = Unit
  AllHaveData (arrives r ∷ steps) = HasData r × AllHaveData steps
  AllHaveData (triggered ∷ steps) = AllHaveData steps

  -- What holds after a run that started at the count `w`.
  abbrev Consistent : Option Values → ℕ → GroupState o lib g → List (Step o lib g) → Type 0
  Consistent shown w s steps =
      (out : List Record) × (s' : GroupState o lib g) × (shown' : Option Values) × (w' : ℕ)
      × (run_group o lib g s steps ≡ ok (out, s'))
      × Follows cmp.Same shown out shown'
      × Agrees cmp.Same shown' (laws.content s'.previously_triggered)
      × HoldsWord o s'.record_count w'
      × (w' < word_mod)
      × ((w' + undone_count steps) % word_mod ≡ (w + added_count steps) % word_mod)

  run_group_lem :
      (steps : List (Step o lib g)) (s : GroupState o lib g) (shown : Option Values) (w : ℕ)
      → Agrees cmp.Same shown (laws.content s.previously_triggered)
      → HoldsWord o s.record_count w
      → w < word_mod
      → AllHaveData steps
      → Consistent shown w s steps
  unfolding run_group
  run_group_lem [] s shown w a h b d = ([], s, shown, w, refl, quiet, a, h, b, refl)
  run_group_lem (arrives r ∷ steps) s shown w a h b (filled, d) =
      let (s1, e, h1, p) = add_record_lem s r w filled h in
      let a1 = subst (λ c. Agrees cmp.Same shown (laws.content c)) (sym p) a in
      let (out, s', shown', w', e', f, a', h', b', m) =
        run_group_lem steps s1 shown (next_count r w) a1 h1 (next_count_bound r w) d in
      (
        out,
        s',
        shown',
        w',
        after_ok _ e e',
        f,
        a',
        h',
        b',
        arrived_balance r.metadata.undo w w' (added_count steps) (undone_count steps) b m,
      )
  run_group_lem (triggered ∷ steps) s shown w a h b d =
      let (out1, s1, shown1, e, f, a1, q, p) = trigger_lem s shown w a h in
      let h1 = subst (λ c. HoldsWord o c w) (sym p) h in
      let (out, s', shown', w', e', f', a', h', b', m) =
        run_group_lem steps s1 shown1 w a1 h1 b d in
      (
        out1 ++ out,
        s',
        shown',
        w',
        after_ok _ e (after_ok _ e' refl),
        Follows-append cmp.Same f f',
        a',
        h',
        b',
        m,
      )

  -- A group over a store and aggregates that work, run from an empty state on fewer than 2^63 records,
  -- each with a value for each of its names, and any triggers, and then triggered: no operation fails;
  -- in what it sends, a record comes only where nothing sent before stands, and a retraction retracts
  -- what stands; and in the end a record stands exactly where more records were added than undone.
  pub run_group-trigger :
      (steps : List (Step o lib g)) (s : GroupState o lib g)
      → AllHaveData steps
      → laws.content s.record_count ≡ none
      → laws.content s.previously_triggered ≡ none
      → added_count steps + undone_count steps < sign_bit
      → (out : List Record) × (s' : GroupState o lib g) × (out' : List Record) × (s'' : GroupState o
          lib g)
        × (shown : Option Values) × (run_group o lib g s steps ≡ ok (out, s'))
        × (trigger o lib g s' ≡ ok (out', s''))
        × Follows cmp.Same none (out ++ out') shown
        × (is_some shown ≡ ltb (undone_count steps) (added_count steps))
  run_group-trigger steps s d c p n =
      let a = subst (λ k. Agrees cmp.Same none k) (sym p) tt in
      let (out, s', shown', w', e, f, a', h', b, m) =
        run_group_lem steps s none 0 a (empty_word o laws s.record_count c) (omega arith) d in
      let (out', s'', shown, e', f', a'', q, r) = trigger_lem s' shown' w' a' h' in
      (
        out,
        s',
        out',
        s'',
        shown,
        e,
        e',
        Follows-append cmp.Same f f',
        q ∙ positive_count w' (added_count steps) (undone_count steps) b n m,
      )
