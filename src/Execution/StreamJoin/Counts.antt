-- ===== src/Execution/StreamJoin/Counts.antt =====
-- execution/stream_join.go: the count of a record.
use octosql.Base.{
  ℕ, ◌+◌, ◌<◌, ◌≤◌, Bool, true, false, not, ◌&&◌, ◌||◌, Option, none, some, ok, ◌≡◌, refl, ◌==◌,
  ltb, if◌then◌else◌, arith, Bool-cases, inl, inr, after_ok,
}
use octosql.Base.Int.{sign_bit, int_less}
use octosql.Value.{Value, int, value_equal}
use octosql.Storage.{found, or_zero}
use octosql.Execution.OrderBy.{next_count}
use octosql.Execution.OrderBy.Counted.{one, net}
use octosql.Execution.StreamJoin.{RecordSet, JoinStorage, keep_track_of_count}
use octosql.Execution.StreamJoin.Pairs.{JoinLibraries}
use octosql.Execution.StreamJoin.Sets.{JoinLaws, IsPlain}

-- The count that is stored of a record that was added and retracted so often.
abbrev pub stored_count : ℕ → ℕ → Option Value
stored_count a u = if a == u then none else some (int (net a u))

or_zero-stored_count :
    (a u : ℕ) → a + u < sign_bit → or_zero (found (stored_count a u)) ≡ ok (int (net a u))
or_zero-stored_count a u h = ground arith

next_count-net :
    (undo : Bool) (a u : ℕ)
    → a + u < sign_bit
    → next_count undo (net a u) ≡ net (one (not undo) + a) (one undo + u)
next_count-net true a u h = ground arith
next_count-net false a u h = ground arith

net_is_zero : (a u : ℕ) → a + u ≤ sign_bit → (net a u == 0) ≡ (a == u)
net_is_zero a u h = ground arith

pub is_skipped_lem :
    (undo : Bool) (a u : ℕ)
    → a + u < sign_bit
    → (int_less (net a u) 0 || (net a u == 0 && not undo)) ≡ (ltb a u || (a == u && not undo))
is_skipped_lem undo a u h = ground arith

module _ (lib : JoinLibraries) (o : JoinStorage) (laws : JoinLaws o) where
  pub keep_track_of_count_lem :
      (s : o.JoinState) (v : Value) (plain : IsPlain v) (undo : Bool) (a u : ℕ)
      → laws.counter s v ≡ stored_count a u
      → a + u < sign_bit
      → (s' : o.JoinState) × (keep_track_of_count lib o s v undo
          ≡ ok (s', net (one (not undo) + a) (one undo + u)))
        × ((j : Value)
            → laws.counter s' j ≡ (
                if value_equal v j
                then stored_count (one (not undo) + a) (one undo + u)
                else laws.counter s j))
        × ((set : RecordSet) (j : Value) → laws.number s' set j ≡ laws.number s set j)
  unfolding keep_track_of_count
  keep_track_of_count_lem s v plain undo a u c h =
      let a' = one (not undo) + a in
      let u' = one undo + u in
      let next = next_count-net undo a u h in
      let bound : a' + u' ≤ sign_bit = ground arith in
      let read : or_zero (o.counter_get s v) ≡ ok (int (net a u)) =
        rw (laws.counter_get_lem s v plain, c) (or_zero-stored_count a u h) in
      elim (Bool-cases (a' == u')) [
        | inl e ↦
            let (s', es, cs, ns) = laws.counter_clear_lem s v plain in
            (
              s',
              after_ok _ read (rw (next, net_is_zero a' u' bound, e) (after_ok _ es refl)),
              (λ j. rw (cs j, e) refl),
              ns,
            )
        | inr e ↦
            let (s', es, cs, ns) = laws.counter_set_lem s v (int (net a' u')) plain in
            (
              s',
              after_ok _ read (rw (next, net_is_zero a' u' bound, e) (after_ok _ es refl)),
              (λ j. rw (cs j, e) refl),
              ns,
            )
      ]
