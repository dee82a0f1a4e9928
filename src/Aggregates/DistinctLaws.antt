-- ===== src/Aggregates/DistinctLaws.antt =====
-- Theorems about execution/aggregates/distinct.go.
use octosql.Base.{
  ℕ, Bool, List, [], ◌∷◌, ◌≡◌, refl, sym, ap, ◌∙◌, Option, none, some, Outcome, ok, err, panic,
  ◌>>=◌, ◌==◌, ==_iff, if◌then◌else◌, Bool-cases, inl, inr,
}
use octosql.Base.Int.{int_add, int_sub}
use octosql.Value.{Value, int, value_equal}
use octosql.Storage.{StorageOps, StorageLaws, or_zero, found}
use octosql.Aggregates.Counting.{
  Event, added, retracted, Aggregate, apply_event, run, distinct_add_value, distinct_retract_value,
  distinct,
}

-- How many of each value the group holds, as words.
abbrev pub Counts : Type 0
Counts = Value → ℕ

abbrev pub with_count : Counts → Value → ℕ → Counts
with_count f v n = λ j. if value_equal v j then n else f j

abbrev pub count_after : Counts → Event → Counts
count_after f (added v) = with_count f v (int_add (f v) 1)
count_after f (retracted v) = with_count f v (int_sub (f v) 1)

-- Whether an event changes the presence of its value: the first copy that comes in, and the last
-- that leaves.
abbrev pub is_edge : Counts → Event → Bool
is_edge f (added v) = int_add (f v) 1 == 1
is_edge f (retracted v) = int_sub (f v) 1 == 0

abbrev pub edges : Counts → List Event → List Event
edges f [] = []
edges f (e ∷ es) = let rest = edges (count_after f e) es in if is_edge f e then e ∷ rest else rest

module _ (o : StorageOps) (laws : StorageLaws o) where
  abbrev pub HoldsCounts : o.Map → Counts → Type 0
  HoldsCounts m f = (j : Value) → or_zero (o.map_get m j) ≡ ok (int (f j))

  pub put_count :
      (m : o.Map) (f : Counts) (v : Value) (n : ℕ) (x : Option Value)
      → HoldsCounts m f
      → or_zero (found x) ≡ ok (int n)
      → HoldsCounts (laws.put m v x) (with_count f v n)
  put_count m f v n x h e j = rw (laws.map_get_lem (laws.put m v x) j) (
      rw (laws.lookup-put m v x j) (elim (Bool-cases (value_equal v j)) [
        | inl t ↦ rw t e
        | inr t ↦ rw t (ap or_zero (sym (laws.map_get_lem m j)) ∙ h j)
      ]))

  module _ (underlying : Aggregate) where
    abbrev below : o.Map → Outcome underlying.State → Outcome (o.Map × underlying.State)
    below m r = r >>= λ s. ok (m, s)

    distinct_step :
        (m : o.Map) (s : underlying.State) (f : Counts) (e : Event)
        → HoldsCounts m f
        → (m' : o.Map) × HoldsCounts m' (count_after f e)
          × (apply_event (distinct o underlying) (m, s) e
              ≡ below m' (if is_edge f e then apply_event underlying s e else ok s))
    unfolding distinct_add_value distinct_retract_value
    distinct_step m s f (added v) h =
        let n = int_add (f v) 1 in
        (
          laws.put m v (some (int n)),
          put_count m f v n (some (int n)) h refl,
          rw (h v) (rw (laws.map_set_lem m v (int n)) refl),
        )
    distinct_step m s f (retracted v) h =
        let n = int_sub (f v) 1 in
        elim (Bool-cases (n == 0)) [
          | inl z ↦ (
            laws.put m v none,
            put_count m f v n none h (ap (λ k. ok (int k)) (sym ((==_iff n 0).0 z))),
            rw (h v) (rw z (rw (laws.map_delete_lem m v) refl)),
          )
          | inr z ↦ (
            laws.put m v (some (int n)),
            put_count m f v n (some (int n)) h refl,
            rw (h v) (rw z (rw (laws.map_set_lem m v (int n)) refl)),
          )
        ]

    after_step :
        (m : o.Map) (es fs : List Event) (r : Outcome underlying.State)
        → ((s : underlying.State)
            → (m' : o.Map) × (run (distinct o underlying) (m, s) es
                ≡ below m' (run underlying s fs)))
        → (m' : o.Map) × ((below m r >>= λ s. run (distinct o underlying) s es)
            ≡ below m' (r >>= λ s. run underlying s fs))
    after_step m es fs (ok s) ih = ih s
    after_step m es fs (err e) ih = (m, refl)
    after_step m es fs panic ih = (m, refl)

    distinct-run :
        (es : List Event) (m : o.Map) (s : underlying.State) (f : Counts)
        → HoldsCounts m f
        → (m' : o.Map) × (run (distinct o underlying) (m, s) es
            ≡ below m' (run underlying s (edges f es)))
    unfolding run
    distinct-run [] m s f h = (m, refl)
    distinct-run (e ∷ es) m s f h =
        let (m', h', r) = distinct_step m s f e h in
        rw r (elim (Bool-cases (is_edge f e)) [
          | inl t ↦ rw t (
              after_step m' es (edges (count_after f e) es) (apply_event underlying s e)
                (λ s'. distinct-run es m' s' _ h'))
          | inr t ↦ rw t (distinct-run es m' s _ h')
        ])

    -- DISTINCT over a store that works: on a group without counts, running it over events yields
    -- the same outcome (state of the aggregate below, error or panic) as running the aggregate
    -- below over only the events that change whether their value is present.
    pub run-distinct :
        (es : List Event) (m : o.Map) (s : underlying.State)
        → ((j : Value) → laws.lookup m j ≡ none)
        → (m' : o.Map) × (run (distinct o underlying) (m, s) es
            ≡ (run underlying s (edges (λ _. 0) es) >>= λ s'. ok (m', s')))
    run-distinct es m s h =
        distinct-run es m s (λ _. 0) (λ j. ap or_zero (laws.map_get_lem m j ∙ ap found (h j)))
