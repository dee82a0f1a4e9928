-- ===== src/Execution/GroupBy/Consistency.antt =====
-- The output of a group is consistent: it retracts what it sent, and at its end there is a record for
-- the group exactly where more records came in than were undone.
use octosql.Base.{
  bytes_equal, is_some, ℕ, ◌≡◌, refl, sym, ap, ◌∙◌, Bool, true, false, List, [], ◌∷◌, ◌++◌, Option,
  none, some, Bytes, Outcome, ok, after_ok, if◌then◌else◌, Bool-cases, inl, inr,
}
use mathlib.Core.Path.{subst}
use octosql.Base.Int.{int_positive}
use octosql.Value.{object, no_fields, Value, int, tuple, Values, nil, cons}
use octosql.Storage.{StorageOps, StorageLaws, or_zero, found}
use octosql.Aggregates.{Aggregate}
use octosql.Execution.Records.{IsFilled, record_value_works, all_fields_works, Record, with_undo}
use octosql.Execution.GroupBy.{
  star_name, GroupLibraries, GroupByStream, States, input_value, update_aggregates, get_values,
  optional, tuple_values, GroupState, output_record, retraction_of, record_of, cancel_out,
  assign_ids, current_values, number_outputs,
}
use octosql.Execution.GroupBy.Outputs.{
  RecordComparison, Follows, quiet, sends, retracts, Agrees, record_data-with_event_time,
  undo-with_event_time,
}

-- An aggregate without failures.
abbrev pub Works : Aggregate → Type 0
Works a =
    ((s : a.State) (v : Value) → (s' : a.State) × (a.add_value s v ≡ ok s'))
    × ((s : a.State) (v : Value) → (s' : a.State) × (a.retract_value s v ≡ ok s'))
    × ((s : a.State) → (v : Value) × (s' : a.State) × (a.get_value s ≡ ok (v, s')))

abbrev pub AllWork : List (Bytes × Aggregate) → Type 0
AllWork [] = Unit
AllWork ((f, a) ∷ rest) = Works a × AllWork rest

-- A record with a value for each of its names.
abbrev pub HasData : Record → Type 0
HasData r = IsFilled r.field_names r.record_data

input_value_works :
    (lib : GroupLibraries) (r : Record) (name : Bytes)
    → HasData r
    → (v : Value) × (input_value lib r name ≡ ok v)
unfolding input_value
input_value_works lib r name h = elim (Bool-cases (bytes_equal name star_name)) [
  | inl e ↦
      let (fields, k) = all_fields_works lib.to_lower r r.field_names no_fields h in
      rw e (object fields, after_ok _ k refl)
  | inr e ↦ rw e (record_value_works lib.to_lower r name h)
]

pub update_aggregates_works :
    (lib : GroupLibraries) (l : List (Bytes × Aggregate)) (s : States l) (r : Record)
    → HasData r
    → AllWork l
    → (s' : States l) × (update_aggregates lib l s r ≡ ok s')
unfolding update_aggregates
update_aggregates_works lib [] s r filled h = (s, refl)
update_aggregates_works lib ((f, a) ∷ l) (s, ss) r filled ((add, retract, _), hs) =
    let (ss', k) = update_aggregates_works lib l ss r filled hs in
    let (v, ev) = input_value_works lib r f filled in
    let step = λ (c : Bool). if c then a.retract_value s v else a.add_value s v in
    elim (Bool-cases r.metadata.undo) [
      | inl u ↦
          let (s', e) = retract s v in
          ((s', ss'), after_ok _ ev (after_ok _ (ap step u ∙ e) (after_ok _ k refl)))
      | inr u ↦
          let (s', e) = add s v in
          ((s', ss'), after_ok _ ev (after_ok _ (ap step u ∙ e) (after_ok _ k refl)))
    ]

get_values_works :
    (l : List (Bytes × Aggregate)) (s : States l)
    → AllWork l
    → (vs : Values) × (s' : States l) × (get_values l s ≡ ok (vs, s'))
unfolding get_values
get_values_works [] s h = (nil, s, refl)
get_values_works ((f, a) ∷ l) (s, ss) ((_, _, get), hs) =
    let (v, s', e) = get s in
    let (vs, ss', k) = get_values_works l ss hs in
    (cons v vs, (s', ss'), after_ok _ e (after_ok _ k refl))

pub optional-found : (c : Option Value) → optional (found c) ≡ ok c
optional-found none = refl
optional-found (some v) = refl

or_zero-found : (c : Option Value) → (v : Value) × (or_zero (found c) ≡ ok v)
or_zero-found none = (int 0, refl)
or_zero-found (some v) = (v, refl)

module _ (o : StorageOps) (laws : StorageLaws o) (lib : GroupLibraries) (cmp : RecordComparison lib)
    (g : GroupByStream) (work : AllWork g.aggregates) where
  abbrev pub State : Type 0
  State = GroupState o lib g

  data_of : (vs : Values) → (output_record o lib g vs).record_data ≡ vs
  data_of vs = record_data-with_event_time g.output_event_time_field _

  not_undone : (vs : Values) → (output_record o lib g vs).metadata.undo ≡ false
  not_undone vs = undo-with_event_time g.output_event_time_field _

  number_outputs_lem :
      (out : List Record) (s : State)
      → (n : ℕ) × (s' : State) × (number_outputs o lib g out s ≡ ok (assign_ids o lib g n out, s'))
        × (s'.previously_triggered ≡ s.previously_triggered)
        × (s'.record_count ≡ s.record_count)
  unfolding number_outputs
  number_outputs_lem out s =
      let (v, z) = or_zero-found (laws.content s.triggered_count) in
      let e = ap or_zero (laws.cell_get_lem s.triggered_count) ∙ z in
      (_, _, after_ok _ e (after_ok _ (laws.cell_set_lem s.triggered_count _) refl), refl, refl)

  -- What the storage has as the tuple triggered before, once the values are known.
  abbrev pub kept : Option Values → Option Value
  kept none = none
  kept (some vs) = some (tuple vs)

  pub current_values_lem :
      (s : State) (w : ℕ)
      → (values : Option Values) × (s' : State) × (current_values o lib g s (int w)
          ≡ ok (values, s'))
        × (laws.content s'.previously_triggered ≡ kept values)
        × (s'.record_count ≡ s.record_count)
        × (is_some values ≡ int_positive w)
  unfolding current_values
  current_values_lem s w = elim (Bool-cases (int_positive w)) [
    | inl e ↦
        let (vs, states', k) = get_values_works g.aggregates s.states work in
        let c = laws.cell_set_lem s.previously_triggered (tuple vs) in
        rw e (some vs, _, after_ok _ k (after_ok _ c refl), laws.content-write _ _, refl, refl)
    | inr e ↦
        let c = laws.cell_clear_lem s.previously_triggered in
        rw e (none, _, after_ok _ c refl, laws.content-write _ _, refl, refl)
  ]

  -- What is known is kept as a tuple.
  pub Agrees-tuple_values :
      (shown : Option Values) (c : Option Value)
      → Agrees cmp.Same shown c
      → (p : Option Values) × (tuple_values c ≡ ok p) × Agrees cmp.Same shown (kept p)
  Agrees-tuple_values none none a = (none, refl, a)
  Agrees-tuple_values (some v) (some (tuple w)) a = (some w, refl, a)
  Agrees-tuple_values _ _ a = absurd a

  abbrev pub Answered :
      Option Values → Option Values → State → Outcome (List Record × State) → Type 0
  Answered shown values s1 result =
      (out : List Record) × (s' : State) × (shown' : Option Values) × (result ≡ ok (out, s'))
      × Follows cmp.Same shown out shown'
      × Agrees cmp.Same shown' (laws.content s'.previously_triggered)
      × (is_some shown' ≡ is_some values)
      × (s'.record_count ≡ s1.record_count)

  abbrev pub sent : State → List Record → Outcome (List Record × State)
  sent s output = if cancel_out o lib g output then ok ([], s) else number_outputs o lib g output s

  Agrees-content :
      (shown : Option Values) (c c' : o.Cell) (k : Option Value)
      → c' ≡ c
      → laws.content c ≡ k
      → Agrees cmp.Same shown k
      → Agrees cmp.Same shown (laws.content c')
  Agrees-content shown c c' k e h a = rw (e, h) a

  shown_now :
      (vs : Values) → Follows cmp.Same (some (output_record o lib g vs).record_data) [] (some vs)
  shown_now vs = subst (λ d. Follows cmp.Same (some d) [] (some vs)) (sym (data_of vs)) quiet

  retracted_now :
      (v vs : Values) → cmp.Same v vs → cmp.Same v (output_record o lib g vs).record_data
  retracted_now v vs a = subst (λ d. cmp.Same v d) (sym (data_of vs)) a

  pub sent_lem :
      (previous values shown : Option Values) (s : State)
      → Agrees cmp.Same shown (kept previous)
      → laws.content s.previously_triggered ≡ kept values
      → Answered shown values s
          (sent s (retraction_of o lib g previous ++ record_of o lib g values))
  sent_lem none none none s a k =
      let (n, s', e, p, c) = number_outputs_lem [] s in
      ([], s', none, e, quiet, Agrees-content none _ _ _ p k tt, refl, c)
  sent_lem none (some vs) none s a k =
      let (n, s', e, p, c) = number_outputs_lem (output_record o lib g vs ∷ []) s in
      (
        _,
        s',
        some vs,
        e,
        sends (not_undone vs) (shown_now vs),
        Agrees-content (some vs) _ _ _ p k (cmp.same_refl vs),
        refl,
        c,
      )
  sent_lem (some q) none (some v) s a k =
      let (n, s', e, p, c) = number_outputs_lem (with_undo true (output_record o lib g q) ∷ []) s in
      (
        _,
        s',
        none,
        e,
        retracts refl (retracted_now v q a) quiet,
        Agrees-content none _ _ _ p k tt,
        refl,
        c,
      )
  sent_lem (some q) (some vs) (some v) s a k =
      let u = output_record o lib g q in
      let r = output_record o lib g vs in
      let test = lib.records_equal (with_undo false (with_undo true u)) r in
      let result = λ (b : Bool).
        if b then ok ([], s) else number_outputs o lib g (with_undo true u ∷ r ∷ []) s in
      elim (Bool-cases test) [
        | inl e ↦
            let same = cmp.records_equal_lem (with_undo false (with_undo true u)) r e in
            let both = subst (λ d. cmp.Same d r.record_data) (data_of q) same in
            let next = subst (λ d. cmp.Same q d) (data_of vs) both in
            (
              [],
              s,
              some v,
              ap result e,
              quiet,
              Agrees-content (some v) _ _ _ refl k (cmp.same_trans a next),
              refl,
              refl,
            )
        | inr e ↦
            let (n, s', e', p, c) = number_outputs_lem (with_undo true u ∷ r ∷ []) s in
            (
              _,
              s',
              some vs,
              ap result e ∙ e',
              retracts refl (retracted_now v q a) (sends (not_undone vs) (shown_now vs)),
              Agrees-content (some vs) _ _ _ p k (cmp.same_refl vs),
              refl,
              c,
            )
      ]
  sent_lem none values (some v) s a k = absurd a
  sent_lem (some q) values none s a k = absurd a
