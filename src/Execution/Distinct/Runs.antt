-- ===== src/Execution/Distinct/Runs.antt =====
-- Runs of a group of equal records: records that arrive and triggers, in any order.
use octosql.Base.{
  ℕ, ◌+◌, ◌<◌, ◌≡◌, refl, sym, ap, ◌∙◌, Bool, true, false, not, ◌&&◌, ◌||◌, List, [], ◌∷◌, ◌++◌,
  length, Option, none, some, is_some, Bytes, Outcome, ok, after_ok, ltb, ◌==◌, ==_iff,
  if◌then◌else◌, arith, Bool-cases, Option-cases, inl, inr,
}
use mathlib.Core.Path.{subst}
use octosql.Base.Int.{sign_bit}
use octosql.Value.{Value, int, string, phantom, Values}
use octosql.Storage.{StorageOps, StorageLaws, or_zero}
use octosql.Storage.Cells.{HoldsWord, written_word, cleared_word, empty_word}
use octosql.Execution.Records.{Record}
use octosql.Execution.GroupBy.{optional}
use octosql.Execution.GroupBy.Outputs.{Follows, quiet, sends, retracts, Follows-append}
use octosql.Execution.GroupBy.Consistency.{optional-found}
use octosql.Execution.GroupBy.Runs.{positive_count}
use octosql.Execution.Distinct.{
  RecordOps, RecordLaws, id_or_empty, optional_record, is_present, DistinctState, count_record,
  require_id, add_with_id, add_distinct, send_distinct, sent_record, sent_record, trigger_distinct,
  DistinctStep, arrives, triggered, run_distinct,
}
use octosql.Execution.Distinct.Tally.{
  tally_one, tally, AllAlike, Shows, Keeps, Keeps-some, Keeps-mono, next_count, Balanced,
  Balanced-tally_one, total_one, not_first, is_present-found, optional_record-found,
}

module _ (o : StorageOps) (laws : StorageLaws o) (c : RecordOps) (records : RecordLaws c)
    (v : Values) where
  abbrev State : Type 0
  State = DistinctState o c

  abbrev pub Same : Values → Values → Type 0
  Same d d' = d ≡ d'

  -- What the storage holds after `n.0` additions and `n.1` retractions, when the consumer knows `shown`.
  abbrev Invariant : Option Values → ℕ × ℕ → State → Type 0
  Invariant shown n s =
      (w : ℕ) × HoldsWord o s.record_count w
      × Balanced w n
      × (is_some (laws.content s.was_triggered) ≡ is_some shown)
      × Shows v shown
      × Keeps v (ltb n.1 n.0 || is_some shown) (records.kept s.key_record)

  count_record_lem :
      (s : State) (r : Record) (n : ℕ)
      → (s' : State) × (count_record o c s r n ≡ ok s')
        × HoldsWord o s'.record_count n
        × (s'.was_triggered ≡ s.was_triggered)
        × (records.kept s'.key_record ≡ (if n == 1 then some r else records.kept s.key_record))
  unfolding count_record
  count_record_lem s r n = elim (Bool-cases (n == 0)) [
    | inl z ↦
        let y : (n == 1) ≡ false = ground (arith, z) in
        rw (z, laws.cell_clear_lem s.record_count, y)
          (
            _,
            refl,
            subst (λ k. HoldsWord o (laws.write s.record_count none) k) (sym ((==_iff n 0).0 z))
                (cleared_word o laws s.record_count),
            refl,
            refl,
          )
    | inr z ↦ elim (Bool-cases (n == 1)) [
      | inl y ↦
          rw (z, laws.cell_set_lem s.record_count (int n), y, records.record_set_lem s.key_record r)
            (_, refl, written_word o laws s.record_count n, refl, records.kept-keep _ _)
      | inr y ↦
          rw (z, laws.cell_set_lem s.record_count (int n), y)
            (_, refl, written_word o laws s.record_count n, refl, refl)
    ]
  ]

  set_if :
      (test : Bool) (i : o.Cell) (x : Value)
      → (i' : o.Cell) × ((if test then o.cell_set i x else ok i) ≡ ok i')
  set_if true i x = (_, laws.cell_set_lem i x)
  set_if false i x = (i, refl)

  kept_after :
      (b old : Bool) (n : ℕ) (r : Record) (k k' : Option Record)
      → k' ≡ (if n == 1 then some r else k)
      → r.record_data ≡ v
      → ((n == 1) ≡ false → b ≡ true → old ≡ true)
      → Keeps v old k
      → Keeps v b k'
  kept_after b old n r k k' e d h x = elim (Bool-cases (n == 1)) [
    | inl y ↦ rw (e, y) (Keeps-some v b r d)
    | inr y ↦ rw (e, y) (Keeps-mono v old b k (h y) x)
  ]

  add_distinct_lem :
      (s : State) (r : Record) (shown : Option Values) (n : ℕ × ℕ)
      → r.record_data ≡ v
      → is_some r.metadata.record_id ≡ true
      → n.0 + n.1 + 1 < sign_bit
      → Invariant shown n s
      → (s' : State) × (add_distinct o c s r ≡ ok s')
        × Invariant shown (tally_one r.metadata.undo n) s'
  unfolding add_distinct add_with_id
  add_distinct_lem s r shown n d i l (w, h, b, t, sh, k) =
      let undo = r.metadata.undo in
      let m = next_count undo w in
      let (s1, e, h1, t1, k1) = count_record_lem s r m in
      let keeps = kept_after _ _ m r _ _ k1 d (λ y. not_first undo (is_some shown) w n b l y) k in
      let w1 = subst (λ x. is_some (laws.content x) ≡ is_some shown) (sym t1) t in
      elim (Option-cases r.metadata.record_id) [
        | inl z ↦ let e = ap (λ (x : Option Bytes). is_some x) (sym z) ∙ i in cc
        | inr (j, z) ↦
            let (i', q) = set_if (not undo && m == 1 || undo && m == 0) s1.key_id (string j) in
            (
              record s1 { key_id = i' },
              ap (λ (x : Option Bytes). require_id x (add_with_id o c s r)) z
                  ∙ after_ok _ h (after_ok _ e (after_ok _ q refl)),
              (m, h1, Balanced-tally_one undo w n b, w1, sh, keeps),
            )
      ]

  -- What a trigger of the state `s` with `n` counted does.
  abbrev Sent : Option Values → ℕ × ℕ → Outcome (List Record × State) → Type 0
  Sent shown n result =
      (out : List Record) × (s' : State) × (shown' : Option Values) × (result ≡ ok (out, s'))
      × Follows Same shown out shown'
      × Invariant shown' n s'
      × (is_some shown' ≡ ltb n.1 n.0)

  send_distinct_lem :
      (s : State) (shown : Option Values) (n : ℕ × ℕ) (present : Bool) (record_id : Bytes)
      → ltb n.1 n.0 ≡ present
      → Invariant shown n s
      → Sent shown n
          (send_distinct o c s (is_some shown) present record_id (records.kept s.key_record))
  unfolding send_distinct
  send_distinct_lem s none n true i p (w, h, b, t, sh, k) =
      let (r, e, d) = subst (λ x. Keeps v (x || false) (records.kept s.key_record)) p k in
      (
        _,
        _,
        some r.record_data,
        after_ok _ (laws.cell_set_lem s.was_triggered phantom)
            (after_ok _ (ap (λ x. sent_record x false i) e) refl),
        sends refl quiet,
        (
          w,
          h,
          b,
          ap (λ (x : Option Value). is_some x) (laws.content-write _ _),
          d,
          subst (λ x. Keeps v (x || true) (records.kept s.key_record)) (sym p) (r, e, d),
        ),
        sym p,
      )
  send_distinct_lem s (some u) n false i p (w, h, b, t, sh, k) =
      let (r, e, d) = subst (λ x. Keeps v (x || true) (records.kept s.key_record)) p k in
      (
        _,
        _,
        none,
        after_ok _ (laws.cell_clear_lem s.was_triggered) (
            after_ok _ (laws.cell_clear_lem s.key_id) (
              after_ok _ (records.record_clear_lem s.key_record)
                (after_ok _ (ap (λ x. sent_record x true i) e) refl))),
        retracts refl (sh ∙ sym d) quiet,
        (
          w,
          h,
          b,
          ap (λ (x : Option Value). is_some x) (laws.content-write _ _),
          tt,
          subst (λ x. Keeps v (x || false) (records.kept (records.keep s.key_record none))) (sym p)
              tt,
        ),
        sym p,
      )
  send_distinct_lem s none n false i p inv = ([], s, none, refl, quiet, inv, sym p)
  send_distinct_lem s (some u) n true i p inv = ([], s, some u, refl, quiet, inv, sym p)

  trigger_distinct_lem :
      (s : State) (shown : Option Values) (n : ℕ × ℕ)
      → n.0 + n.1 < sign_bit
      → Invariant shown n s
      → Sent shown n (trigger_distinct o c s)
  unfolding trigger_distinct
  trigger_distinct_lem s shown n l (w, h, b, t, sh, k) =
      let count = laws.content s.record_count in
      let found_count = ap or_zero (sym (laws.cell_get_lem s.record_count)) ∙ h in
      let p = positive_count w n.0 n.1 b.0 l b.1 in
      let present = is_present-found count w found_count ∙ p in
      let record_id = id_or_empty (laws.content s.key_id) in
      let send = λ (x : Bool).
        send_distinct o c s x (is_present count) record_id (records.kept s.key_record) in
      let (out, s', shown', e, f, inv, q) =
        send_distinct_lem s shown n (is_present count) record_id (sym present)
          (w, h, b, t, sh, k) in
      (
        out,
        s',
        shown',
        after_ok _ (ap optional (laws.cell_get_lem s.was_triggered) ∙ optional-found _) (
            after_ok _ (ap optional (laws.cell_get_lem s.record_count) ∙ optional-found _) (
              after_ok _ (ap optional (laws.cell_get_lem s.key_id) ∙ optional-found _) (
                after_ok _
                  (ap optional_record (records.record_get_lem s.key_record)
                    ∙ optional_record-found _)
                  (ap send t ∙ e)))),
        f,
        inv,
        q,
      )

  -- A run goes on from what was counted before.
  run_distinct_lem :
      (steps : List (DistinctStep o c)) (s : State) (shown : Option Values) (n : ℕ × ℕ)
      → AllAlike v steps
      → n.0 + n.1 + length steps < sign_bit
      → Invariant shown n s
      → (out : List Record) × (s' : State) × (shown' : Option Values) × (run_distinct o c s steps
          ≡ ok (out, s'))
        × Follows Same shown out shown'
        × Invariant shown' (tally n steps) s'
        × ((tally n steps).0 + (tally n steps).1 < sign_bit)
  unfolding run_distinct
  run_distinct_lem [] s shown n alike l inv = ([], s, shown, refl, quiet, inv, omega arith)
  run_distinct_lem (arrives r ∷ steps) s shown n (d, i, alike) l inv =
      let (s1, e, inv1) = add_distinct_lem s r shown n d i (omega arith) inv in
      let total = total_one r.metadata.undo n in
      let (out, s', shown', e', f, inv', l') =
        run_distinct_lem steps s1 shown (tally_one r.metadata.undo n) alike (omega (arith, total))
          inv1 in
      (out, s', shown', after_ok _ e e', f, inv', l')
  run_distinct_lem (triggered ∷ steps) s shown n alike l inv =
      let (out1, s1, shown1, e, f, inv1, q) = trigger_distinct_lem s shown n (omega arith) inv in
      let (out, s', shown', e', f', inv', l') =
        run_distinct_lem steps s1 shown1 n alike (omega arith) inv1 in
      (
        out1 ++ out,
        s',
        shown',
        after_ok _ e (after_ok _ e' refl),
        Follows-append Same f f',
        inv',
        l',
      )

  -- A group of equal records with IDs over a store that works, run from an empty state on fewer than 2^63
  -- steps, records and triggers in any order, and then triggered: no operation fails; the record is sent
  -- only where it does not stand, and a retraction retracts what stands; and in the end the record stands
  -- exactly where more records were added than undone.
  pub run_distinct-trigger_distinct :
      (steps : List (DistinctStep o c)) (s : State)
      → laws.content s.record_count ≡ none
      → laws.content s.was_triggered ≡ none
      → AllAlike v steps
      → length steps < sign_bit
      → (out : List Record) × (s' : State) × (out' : List Record) × (s'' : State) × (shown : Option
          Values)
        × (run_distinct o c s steps ≡ ok (out, s'))
        × (trigger_distinct o c s' ≡ ok (out', s''))
        × Follows Same none (out ++ out') shown
        × (is_some shown ≡ ltb (tally (0, 0) steps).1 (tally (0, 0) steps).0)
  run_distinct-trigger_distinct steps s e t alike l =
      let start : Invariant none (0, 0) s = (
        0,
        empty_word o laws s.record_count e,
        (omega arith, refl),
        ap (λ (x : Option Value). is_some x) t,
        tt,
        tt,
      ) in
      let (out, s', shown', e1, f, inv, l') =
        run_distinct_lem steps s none (0, 0) alike (omega arith) start in
      let (out', s'', shown, e2, f', _, q) =
        trigger_distinct_lem s' shown' (tally (0, 0) steps) l' inv in
      (out, s', out', s'', shown, e1, e2, Follows-append Same f f', q)
