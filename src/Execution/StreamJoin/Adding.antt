-- ===== src/Execution/StreamJoin/Adding.antt =====
-- execution/stream_join.go: a record that arrives keeps what the sets and counts of a key hold.
use octosql.Base.{
  ℕ, suc, ◌+◌, ◌-◌, ◌≤◌, ◌<◌, Bool, true, false, not, ok, ◌≡◌, refl, arith, Bool-cases, inl, inr,
  ◌==◌, after_ok, ==_iff,
}
use octosql.Base.Int.{sign_bit}
use octosql.Execution.Records.{Record, with_undo}
use octosql.Execution.OrderBy.Counted.{one}
use octosql.Execution.StreamJoin.{RecordSet, JoinStorage, new_set, enter_record, add_joined}
use octosql.Execution.StreamJoin.Pairs.{JoinLibraries}
use octosql.Execution.StreamJoin.Sets.{JoinLaws}
use octosql.Execution.StreamJoin.Shapes.{
  encode-IsPlain, Shape, shape_of, encode, Normal, record_to_value-encode,
}
use octosql.Execution.StreamJoin.Counts.{keep_track_of_count_lem, is_skipped_lem}
use octosql.Execution.StreamJoin.Kept.{new_of, one_more, Kept}
use octosql.Execution.StreamJoin.Changing.{
  is_skipped, added_beyond, undone_beyond, Counted, SameSets, skipped_Kept, number_at, entered_Kept,
}

module _ (lib : JoinLibraries) (o : JoinStorage) (laws : JoinLaws o) (side : Shape → Bool)
    (s : o.JoinState) (a u : Shape → ℕ) (r : Record) (normal : Normal lib (shape_of r))
    (kept : Kept lib o laws side s a u) where
  abbrev x : Shape
  x = shape_of r

  abbrev set : RecordSet
  set = new_of (side x)

  abbrev KeptAfter : o.JoinState → Bool → Type 0
  KeptAfter s2 undo = Kept lib o laws side s2 (one_more x (not undo) a) (one_more x undo u)

  enter_record_lem :
      (undo : Bool) (s1 : o.JoinState)
      → r.metadata.undo ≡ undo
      → Counted lib o laws side s s1 a u x undo normal kept
      → SameSets lib o laws side s s1 a u x undo normal kept
      → is_skipped undo (one (not undo) + a x) (one undo + u x) ≡ false
      → (s2 : o.JoinState) × (enter_record lib o s1 set r (encode x false) ≡ ok s2)
        × KeptAfter s2 undo
  unfolding enter_record
  enter_record_lem false s1 eu counted sets h =
      let (s2, e, c, n) =
        laws.set_insert_lem s1 set (encode x false) (encode-IsPlain x false normal.plain) in
      let m = suc (laws.number s1 set (encode x false)) in
      let at = number_at lib o laws side s s1 a u x false normal kept s2 false m counted sets c n in
      (
        s2,
        rw eu e,
        entered_Kept lib o laws side s s1 a u x false normal kept s2 false m counted sets c n
            (omega (
              arith,
              at false,
              at true,
              sets set (encode x false),
              kept.balanced x,
              added_beyond (a x) (u x) h,
            ))
            (omega (arith, at true, kept.covered x)),
      )
  enter_record_lem true s1 eu counted sets h =
      elim (Bool-cases (laws.number s1 set (encode x false) == 0)) [
        | inl z ↦
            let (s2, e, c, n) =
              laws.set_insert_lem s1 set (encode x true) (encode-IsPlain x true normal.plain) in
            let m = suc (laws.number s1 set (encode x true)) in
            let at =
              number_at lib o laws side s s1 a u x true normal kept s2 true m counted sets c n in
            let none_new : laws.number s1 set (encode x false) ≡ 0 = (==_iff _ _).0 z in
            let w = record_to_value-encode lib (with_undo true r) normal in
            (
              s2,
              rw eu (
                  after_ok _
                    (laws.set_contains_lem s1 set (encode x false)
                      (encode-IsPlain x false normal.plain))
                    (rw z (after_ok _ w e))),
              entered_Kept lib o laws side s s1 a u x true normal kept s2 true m counted sets c n
                  (omega (
                    arith,
                    at false,
                    at true,
                    sets set (encode x true),
                    sets set (encode x false),
                    none_new,
                    kept.balanced x,
                    undone_beyond (a x) (u x) h,
                  ))
                  (omega (
                    arith,
                    at true,
                    sets set (encode x true),
                    sets set (encode x false),
                    none_new,
                    kept.balanced x,
                    undone_beyond (a x) (u x) h,
                  )),
            )
        | inr z ↦
            let (s2, e, c, n) =
              laws.set_erase_lem s1 set (encode x false) (encode-IsPlain x false normal.plain) in
            let m = laws.number s1 set (encode x false) - 1 in
            let at =
              number_at lib o laws side s s1 a u x true normal kept s2 false m counted sets c n in
            let some_new : 1 ≤ laws.number s1 set (encode x false) = ground arith in
            (
              s2,
              rw eu (
                  after_ok _
                    (laws.set_contains_lem s1 set (encode x false)
                      (encode-IsPlain x false normal.plain))
                    (rw z e)),
              entered_Kept lib o laws side s s1 a u x true normal kept s2 false m counted sets c n
                  (omega (
                    arith,
                    at false,
                    at true,
                    sets set (encode x false),
                    some_new,
                    kept.balanced x,
                    undone_beyond (a x) (u x) h,
                  ))
                  (omega (arith, at true, kept.covered x)),
            )
      ]

  -- A record that arrives on its side.
  pub add_joined_lem :
      (i : ℕ)
      → new_set i ≡ ok set
      → suc (a x + u x) < sign_bit
      → (s2 : o.JoinState) × (add_joined lib o s i r ≡ ok s2) × KeptAfter s2 r.metadata.undo
  unfolding add_joined
  add_joined_lem i e h =
      let undo = r.metadata.undo in
      let (s1, et, counted, sets) =
        keep_track_of_count_lem lib o laws s (encode x false) (encode-IsPlain x false normal.plain)
          undo (a x) (u x) (kept.counted x) (omega arith) in
      let bound : one (not undo) + a x + (one undo + u x) < sign_bit =
        next_bound undo (a x) (u x) h in
      let test = is_skipped_lem undo (one (not undo) + a x) (one undo + u x) bound in
      elim (Bool-cases (is_skipped undo (one (not undo) + a x) (one undo + u x))) [
        | inl k ↦ (
          s1,
          after_ok _ e (
              after_ok _ (record_to_value-encode lib (with_undo false r) normal)
                (after_ok _ et (rw (test, k) refl))),
          skipped_Kept lib o laws side s s1 a u x undo normal kept counted sets k,
        )
        | inr k ↦
            let (s2, ee, kept2) = enter_record_lem undo s1 refl counted sets k in
            (
              s2,
              after_ok _ e (
                  after_ok _ (record_to_value-encode lib (with_undo false r) normal)
                    (after_ok _ et (rw (test, k) ee))),
              kept2,
            )
      ]
    where
      next_bound :
          (undo : Bool) (a u : ℕ)
          → suc (a + u) < sign_bit
          → one (not undo) + a + (one undo + u) < sign_bit
      next_bound true a u h = omega (arith)
      next_bound false a u h = omega (arith)
