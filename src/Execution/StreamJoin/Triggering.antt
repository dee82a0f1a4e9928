-- ===== src/Execution/StreamJoin/Triggering.antt =====
-- execution/stream_join.go: a trigger keeps what the sets and counts of a key hold, and leaves no new
-- records.
use octosql.Base.{
  [], ◌∷◌, ◌++◌, bytes_equal, >>=-eq-ok, ℕ, ◌+◌, ◌-◌, ◌≤◌, Bool, true, false, List, Bytes, ok, ◌≡◌,
  refl, arith, ◌∙◌, after_ok, ap, length, Bool-cases, inl, inr, ◌==◌, ==_iff,
}
use octosql.Value.{Values, nil, cons, Value, int}
use octosql.Base.Int.{int_add}
use octosql.Aggregates.{as_int}
use octosql.Execution.Records.{Record, IsFilled, record_value_works}
use octosql.Execution.StreamJoin.{
  RecordSet, left_old, right_old, left_new, right_new, JoinStorage, read_set,
  merge_new_and_old_records, trigger_joined,
}
use octosql.Execution.StreamJoin.Pairs.{
  check_event_times, event_name, copy_data, JoinType, JoinLibraries, records_to_trigger,
}
use octosql.Execution.StreamJoin.Sets.{JoinLaws, same_set, All-occurrences}
use octosql.Execution.StreamJoin.Shapes.{record_from, Shape, encode, encode-injective, Normal}
use octosql.Execution.StreamJoin.Reading.{
  Changes, additions, retractions, AllShapes, IsEncoded, records, read_records-encoded,
}
use octosql.Execution.StreamJoin.Moves.{Holds, same_set_refl, move_records_lem}
use octosql.Execution.StreamJoin.Kept.{new_of, old_of, IsOf, old_number, Kept}
use octosql.Execution.StreamJoin.Changing.{new_of-old_of}

old_of-new_of : (d e : Bool) → same_set (old_of d) (new_of e) ≡ false
old_of-new_of d e = ground arith

module _ (lib : JoinLibraries) (o : JoinStorage) (laws : JoinLaws o) (side : Shape → Bool) where
  IsNormal : (d : Bool) (x : Shape) → IsOf lib o laws side d x → Normal lib x
  IsNormal d x h = h.0

  -- What is read from the new set of a side.
  pub record Read (s : o.JoinState) (d : Bool) (xs : Changes) : Type 0 where
    pub reads : read_set lib o s (new_of d) ≡ ok (records lib xs)
    pub of_side : AllShapes (IsOf lib o laws side d) xs
    pub plain : (y : Shape) → additions y xs ≡ laws.number s (new_of d) (encode y false)
    pub undone : (y : Shape) → retractions y xs ≡ laws.number s (new_of d) (encode y true)

  copy_data-IsFilled :
      (fs : List Bytes) (vs : Values) {ws : Values} → copy_data fs vs ≡ ok ws → IsFilled fs vs
  copy_data-IsFilled [] vs h = tt
  copy_data-IsFilled (f ∷ fs) nil h = cc
  copy_data-IsFilled (f ∷ fs) (cons v vs) h =
      let (rest, e, h') = >>=-eq-ok (copy_data fs vs) _ h in copy_data-IsFilled fs vs e

  check_event_times_lem :
      (event_field : Bytes) (d : Bool) (xs : Changes) (rs : List Record)
      → AllShapes (IsOf lib o laws side d) xs
      → check_event_times lib event_field (records lib xs) rs ≡ ok true
  unfolding check_event_times
  check_event_times_lem event_field d [] rs a = refl
  check_event_times_lem event_field d ((x, b) ∷ xs) [] a = refl
  check_event_times_lem event_field d ((x, b) ∷ xs) (r ∷ rs) ((n, e), a) =
      elim (Bool-cases (bytes_equal event_field [])) [
        | inl h ↦ rw h refl
        | inr h ↦
            let l = record_from lib x b in
            let (v, ev) =
              record_value_works lib.to_lower l (event_name lib l)
                (copy_data-IsFilled x.names x.contents n.contents_kept) in
            rw h (after_ok _ ev (check_event_times_lem event_field d xs (r ∷ rs) a))
      ]

  read_any :
      (s : o.JoinState) (d : Bool) (set : RecordSet)
      → Holds lib o laws (IsOf lib o laws side d) s set
      → (xs : Changes) × (read_set lib o s set ≡ ok (records lib xs))
        × AllShapes (IsOf lib o laws side d) xs
        × ((y : Shape) → additions y xs ≡ laws.number s set (encode y false))
        × ((y : Shape) → retractions y xs ≡ laws.number s set (encode y true))
  unfolding read_set
  read_any s d set holds =
      let (vs, e, n) = laws.set_read_all_lem s set in
      let encoded =
        All-occurrences (IsEncoded (IsOf lib o laws side d)) vs
          (λ v ne. holds v (λ z. ne (n v ∙ z))) in
      let (xs, er, ps, plain, undone) =
        read_records-encoded lib (IsOf lib o laws side d) (IsNormal d) vs encoded in
      (
        xs,
        after_ok _ e er,
        ps,
        (λ y. plain y ∙ n (encode y false)),
        (λ y. undone y ∙ n (encode y true)),
      )

  new_of-Read :
      (s : o.JoinState) (a u : Shape → ℕ) (d : Bool)
      → Kept lib o laws side s a u
      → (xs : Changes) × Read s d xs
  new_of-Read s a u d k =
      let (xs, e, ps, plain, undone) = read_any s d (new_of d) (k.new_holds d) in
      (xs, record { reads = e; of_side = ps; plain = plain; undone = undone })

  -- The merge of one side: of that side nothing is new, the other side is as it was.
  pub record Merged (s s' : o.JoinState) (d : Bool) (xs : Changes) : Type 0 where
    pub counters : (v : Value) → laws.counter s' v ≡ laws.counter s v
    pub others :
        (set : RecordSet) (v : Value)
        → same_set (old_of d) set ≡ false
        → same_set (new_of d) set ≡ false
        → laws.number s' set v ≡ laws.number s set v
    pub cleared : (v : Value) → laws.number s' (new_of d) v ≡ 0
    pub moved :
        (y : Shape)
        → laws.number s' (old_of d) (encode y false) + retractions y xs
          ≡ laws.number s (old_of d) (encode y false) + additions y xs
    pub still_holds :
        Holds lib o laws (IsOf lib o laws side d) s (old_of d)
        → Holds lib o laws (IsOf lib o laws side d) s' (old_of d)

  merge_lem :
      (s : o.JoinState) (d : Bool) (xs : Changes)
      → AllShapes (IsOf lib o laws side d) xs
      → ((y : Shape) → retractions y xs ≤ laws.number s (old_of d) (encode y false))
      → (s' : o.JoinState) × (merge_new_and_old_records lib o s
            (records lib xs)
            (new_of d)
            (old_of d)
          ≡ ok s')
        × Merged s s' d xs
  unfolding merge_new_and_old_records
  merge_lem s d xs ps h =
      let (s1, e1, m) =
        move_records_lem lib o laws (IsOf lib o laws side d) (IsNormal d) (old_of d) xs s ps h in
      let (s2, e2, c, n) = laws.set_clear_lem s1 (new_of d) in
      (
        s2,
        after_ok _ e1 e2,
        record {
          counters = λ v. c v ∙ m.counters v;
          others = λ set v eo en. rw (n set v, en) (m.others set v eo);
          cleared = λ v. rw (n (new_of d) v, same_set_refl (new_of d)) refl;
          moved = λ y. rw (n (old_of d) (encode y false), new_of-old_of d d) (m.plain y);
          still_holds =
              λ hold v ne. m.holds hold v (λ e. ne (rw (n (old_of d) v, new_of-old_of d d) e));
        },
      )

  -- Of either side, also of shapes of the other one.
  covered_any :
      (s : o.JoinState) (a u : Shape → ℕ) (d : Bool) (y : Shape)
      → Kept lib o laws side s a u
      → laws.number s (new_of d) (encode y true) ≤ laws.number s (old_of d) (encode y false)
  covered_any s a u d y k = elim (Bool-cases (laws.number s (new_of d) (encode y true) == 0)) [
    | inl z ↦ omega (arith, (==_iff _ _).0 z)
    | inr nz ↦
        let (x, b, e, (n, sx)) = k.new_holds d (encode y true) (λ z. ==-false nz z) in
        let same : side y ≡ d = ap side (encode-injective y x true b e) ∙ sx in
        rw (← same) (k.covered y)
  ]
    where
      ==-false : {m : ℕ} → (m == 0) ≡ false → m ≡ 0 → ⊥
      ==-false h z = ground arith

  -- What a trigger has made of one side.
  record Settled (s s' : o.JoinState) (d : Bool) : Type 0 where
    cleared : (v : Value) → laws.number s' (new_of d) v ≡ 0
    moved :
        (y : Shape)
        → laws.number s' (old_of d) (encode y false) + laws.number s (new_of d) (encode y true)
          ≡ laws.number s (old_of d) (encode y false) + laws.number s (new_of d) (encode y false)
    old_holds : Holds lib o laws (IsOf lib o laws side d) s' (old_of d)

  old_number-Settled :
      (s s' : o.JoinState) (a u : Shape → ℕ) (y : Shape)
      → Kept lib o laws side s a u
      → Settled s s' (side y)
      → old_number lib o laws side s' y ≡ a y - u y
  old_number-Settled s s' a u y k t = omega (arith, t.moved y, k.balanced y)

  Settled-Kept :
      (s s' : o.JoinState) (a u : Shape → ℕ)
      → Kept lib o laws side s a u
      → ((v : Value) → laws.counter s' v ≡ laws.counter s v)
      → ((d : Bool) → Settled s s' d)
      → Kept lib o laws side s' a u
  Settled-Kept s s' a u k c t = record {
    counted = λ x. c (encode x false) ∙ k.counted x;
    balanced = λ x. omega (
      arith,
      old_number-Settled s s' a u x k (t (side x)),
      (t (side x)).cleared (encode x false),
      (t (side x)).cleared (encode x true),
    );
    covered = λ x. omega (arith, (t (side x)).cleared (encode x true));
    new_holds = λ d v ne. absurd (ne ((t d).cleared v));
    old_holds = λ d. (t d).old_holds;
  }

  -- A trigger succeeds; nothing is new after it, and of every shape as many records are old as were
  -- added beyond those retracted.
  pub trigger_joined_lem :
      (event_field : Bytes) (join_type : JoinType) (s : o.JoinState) (a u : Shape → ℕ)
      → Kept lib o laws side s a u
      → (s' : o.JoinState) × (out : List Record) × (trigger_joined lib o event_field join_type s
          ≡ ok (s', out))
        × Kept lib o laws side s' a u
        × ((d : Bool) (v : Value) → laws.number s' (new_of d) v ≡ 0)
        × ((x : Shape) → old_number lib o laws side s' x ≡ a x - u x)
  unfolding trigger_joined
  trigger_joined_lem event_field join_type s a u k =
      let (tv, et) = laws.triggered_get_lem s in
      let (old_l, eol, psl, al, ul) = read_any s true (old_of true) (k.old_holds true) in
      let (old_r, eor, psr, ar, ur) = read_any s false (old_of false) (k.old_holds false) in
      let (xl, rl) = new_of-Read s a u true k in
      let (xr, rr) = new_of-Read s a u false k in
      let (s1, e1, m1) =
        merge_lem s true xl rl.of_side (λ y. rw (rl.undone y) (covered_any s a u true y k)) in
      let kept_old : (v : Value)
          → laws.number s1 (old_of false) v ≡ laws.number s (old_of false) v =
        λ v. m1.others (old_of false) v refl refl in
      let (s2, e2, m2) =
        merge_lem s1 false xr rr.of_side
          (λ y. rw (rr.undone y, kept_old (encode y false)) (covered_any s a u false y k)) in
      let c1 =
        check_event_times_lem event_field true xl (records lib old_r ++ records lib xr)
          rl.of_side in
      let c2 = check_event_times_lem event_field true old_l (records lib xr) psl in
      let sent =
        records_to_trigger lib event_field join_type (records lib old_l) (records lib old_r)
          (records lib xl) (records lib xr) (as_int tv) in
      let (s3, e3, c3, n3) = laws.triggered_set_lem s2 (int (int_add (as_int tv) (length sent))) in
      let left : Settled s s3 true = record {
        cleared = λ v. n3 left_new v ∙ (m2.others left_new v refl refl ∙ m1.cleared v);
        moved = λ y.
            rw (n3 left_old (encode y false), m2.others left_old (encode y false) refl refl)
              (omega (arith, m1.moved y, rl.plain y, rl.undone y));
        old_holds = λ v ne.
            m1.still_holds (k.old_holds true) v
              (λ e. ne (n3 left_old v ∙ (m2.others left_old v refl refl ∙ e)));
      } in
      let right : Settled s s3 false = record {
        cleared = λ v. n3 right_new v ∙ m2.cleared v;
        moved = λ y.
            rw (n3 right_old (encode y false))
              (omega (arith, m2.moved y, rr.plain y, rr.undone y, kept_old (encode y false)));
        old_holds = λ v ne.
            m2.still_holds (λ w nw. k.old_holds false w (λ e. nw (kept_old w ∙ e))) v
              (λ e. ne (n3 right_old v ∙ e));
      } in
      let both : (d : Bool) → Settled s s3 d =
        λ d. elim d as (λ d. Settled s s3 d) [ true ↦ left | false ↦ right ] in
      (
        s3,
        sent,
        after_ok _ et (
            after_ok _ eol (
              after_ok _ eor (
                after_ok _ rl.reads (
                  after_ok _ rr.reads (
                    after_ok _ c1
                      (after_ok _ c2 (after_ok _ e1 (after_ok _ e2 (after_ok _ e3 refl))))))))),
        Settled-Kept s s3 a u k (λ v. c3 v ∙ (m2.counters v ∙ m1.counters v)) both,
        (λ d. (both d).cleared),
        (λ x. old_number-Settled s s3 a u x k (both (side x))),
      )
