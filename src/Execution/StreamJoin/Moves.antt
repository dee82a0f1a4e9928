-- ===== src/Execution/StreamJoin/Moves.antt =====
-- execution/stream_join.go: the new records go to the old ones.
use octosql.Base.{
  ℕ, suc, ◌+◌, ◌-◌, ◌≤◌, Bool, true, false, not, ◌&&◌, [], ◌∷◌, ok, ◌≡◌, ◌≢◌, refl, arith, after_ok,
  sym, ◌∙◌, Bool-cases, inl, inr, if◌then◌else◌, ◌==◌,
}
use octosql.Value.{Value, value_equal, value_equal_iff}
use octosql.Execution.OrderBy.Counted.{one}
use octosql.Execution.StreamJoin.{RecordSet, JoinStorage, move_record, move_records}
use octosql.Execution.StreamJoin.Pairs.{JoinLibraries}
use octosql.Execution.StreamJoin.Sets.{JoinLaws, same_set}
use octosql.Execution.StreamJoin.Shapes.{
  Shape, encode, same_shape, same_shape_sound, same_shape_refl, encode-plain, encode-undone,
  encode-IsPlain, Normal, record_to_value-encode, record_from,
}
use octosql.Execution.StreamJoin.Reading.{
  Changes, additions, retractions, AllShapes, IsEncoded, records,
}

pub same_set_refl : (set : RecordSet) → same_set set set ≡ true
same_set_refl set = ground arith

first_bound :
    (x : Shape) (b : Bool) (m n : ℕ)
    → same_shape x x ≡ true
    → one (same_shape x x && b) + m ≤ n
    → one b ≤ n
first_bound x true m n e h = let h' = rw e at h in omega (arith, h')
first_bound x false m n e h = omega arith

module _ (lib : JoinLibraries) (o : JoinStorage) (laws : JoinLaws o) where
  -- Whatever a set holds is the encoding of such shapes.
  abbrev pub Holds : (Shape → Type 0) → o.JoinState → RecordSet → Type 0
  Holds p s set = (v : Value) → laws.number s set v ≢ 0 → IsEncoded p v

  module _ (p : Shape → Type 0) (normal : (x : Shape) → p x → Normal lib x) (old : RecordSet) where
    -- What one or more moves do: `plus` and `minus` of each shape.
    pub record Moved (s s' : o.JoinState) (plus minus : Shape → ℕ) : Type 0 where
      pub counters : (v : Value) → laws.counter s' v ≡ laws.counter s v
      pub others :
          (set : RecordSet) (v : Value)
          → same_set old set ≡ false
          → laws.number s' set v ≡ laws.number s set v
      pub plain :
          (y : Shape)
          → laws.number s' old (encode y false) + minus y
            ≡ laws.number s old (encode y false) + plus y
      pub undone :
          (y : Shape) → laws.number s' old (encode y true) ≡ laws.number s old (encode y true)
      pub holds : Holds p s old → Holds p s' old

    -- The number of a shape in the old set is changed.
    put_Moved :
        (s s' : o.JoinState) (x : Shape) (b : Bool) (m : ℕ)
        → p x
        → m + one b ≡ laws.number s old (encode x false) + one (not b)
        → ((j : Value) → laws.counter s' j ≡ laws.counter s j)
        → ((other : RecordSet) (j : Value)
            → laws.number s' other j ≡ (
                if same_set old other && value_equal (encode x false) j
                then m
                else laws.number s other j))
        → Moved s s' (λ y. one (same_shape x y && not b)) (λ y. one (same_shape x y && b))
    put_Moved s s' x b m px e c n = record {
      counters = c;
      others = λ set v ne. rw (n set v, ne) refl;
      plain = plain_lem;
      undone = λ y. rw (n old (encode y true), encode-undone x y false) (ground arith);
      holds = holds_lem;
    }
      where
        plain_lem :
            (y : Shape)
            → laws.number s' old (encode y false) + one (same_shape x y && b)
              ≡ laws.number s old (encode y false) + one (same_shape x y && not b)
        plain_lem y = elim (Bool-cases (same_shape x y)) [
          | inl h ↦
              let same : x ≡ y = same_shape_sound x y h in
              rw (n old (encode y false), encode-plain x y false, same_set_refl old, h, ← same) e
          | inr h ↦ rw (n old (encode y false), encode-plain x y false, same_set_refl old, h) refl
        ]

        holds_lem : Holds p s old → Holds p s' old
        holds_lem hold v ne = elim (Bool-cases (value_equal (encode x false) v)) [
          | inl h ↦ (x, false, sym ((value_equal_iff (encode x false) v).0 h), px)
          | inr h ↦ hold v (λ e. ne (rw (n old v, same_set_refl old, h) e))
        ]

    move_record_lem :
        (s : o.JoinState) (x : Shape) (b : Bool)
        → p x
        → one b ≤ laws.number s old (encode x false)
        → (s' : o.JoinState) × (move_record lib o s old (record_from lib x b) ≡ ok s')
          × Moved s s' (λ y. one (same_shape x y && not b)) (λ y. one (same_shape x y && b))
    unfolding move_record
    move_record_lem s x true px h =
        let (s', e, c, n) =
          laws.set_erase_lem s old (encode x false) (encode-IsPlain x false (normal x px).plain) in
        let present : (not (laws.number s old (encode x false) == 0)) ≡ true = ground arith in
        (
          s',
          after_ok _ (record_to_value-encode lib (record_from lib x false) (normal x px)) (
              after_ok _
                (laws.set_contains_lem s old (encode x false)
                  (encode-IsPlain x false (normal x px).plain))
                (rw present e)),
          put_Moved s s' x true (laws.number s old (encode x false) - 1) px (omega arith) c n,
        )
    move_record_lem s x false px h =
        let (s', e, c, n) =
          laws.set_insert_lem s old (encode x false) (encode-IsPlain x false (normal x px).plain) in
        (
          s',
          after_ok _ (record_to_value-encode lib (record_from lib x false) (normal x px)) e,
          put_Moved s s' x false (suc (laws.number s old (encode x false))) px (omega arith) c n,
        )

    -- All changes of a list: the records arrive, the retracted ones leave.
    pub move_records_lem :
        (xs : Changes) (s : o.JoinState)
        → AllShapes p xs
        → ((y : Shape) → retractions y xs ≤ laws.number s old (encode y false))
        → (s' : o.JoinState) × (move_records lib o s old (records lib xs) ≡ ok s')
          × Moved s s' (λ y. additions y xs) (λ y. retractions y xs)
    unfolding move_records
    move_records_lem [] s ps h = (
      s,
      refl,
      record {
        counters = λ v. refl;
        others = λ set v e. refl;
        plain = λ y. refl;
        undone = λ y. refl;
        holds = λ hold. hold;
      },
    )
    move_records_lem ((x, b) ∷ xs) s (px, ps) h =
        let (s1, e1, m1) =
          move_record_lem s x b px (first_bound x b _ _ (same_shape_refl x) (h x)) in
        let (s2, e2, m2) = move_records_lem xs s1 ps (λ y. omega (arith, m1.plain y, h y)) in
        (
          s2,
          after_ok _ e1 e2,
          record {
            counters = λ v. m2.counters v ∙ m1.counters v;
            others = λ set v e. m2.others set v e ∙ m1.others set v e;
            plain = λ y. omega (arith, m1.plain y, m2.plain y);
            undone = λ y. m2.undone y ∙ m1.undone y;
            holds = λ hold. m2.holds (m1.holds hold);
          },
        )
