-- ===== src/Execution/StreamJoin/Changing.antt =====
-- execution/stream_join.go: a change of one set, or of none, keeps what the sets and counts of a key hold.
use octosql.Base.{
  ℕ, suc, ◌+◌, ◌-◌, ◌≤◌, Bool, true, false, not, ◌&&◌, ◌||◌, ◌≡◌, refl, arith, Bool-cases, inl, inr,
  ◌∙◌, sym, ltb, ◌==◌, if◌then◌else◌,
}
use octosql.Value.{Value, value_equal, value_equal_iff}
use octosql.Execution.OrderBy.Counted.{one}
use octosql.Execution.StreamJoin.{RecordSet, JoinStorage}
use octosql.Execution.StreamJoin.Pairs.{JoinLibraries}
use octosql.Execution.StreamJoin.Sets.{JoinLaws, same_set}
use octosql.Execution.StreamJoin.Shapes.{
  Shape, encode, same_shape, same_shape_sound, same_shape_refl, encode-plain, encode-undone, Normal,
}
use octosql.Execution.StreamJoin.Moves.{Holds, same_set_refl}
use octosql.Execution.StreamJoin.Counts.{stored_count}
use octosql.Execution.StreamJoin.Kept.{
  new_of, old_of, one_more, IsOf, new_number, old_number, Kept, Kept-of_one,
}

abbrev agree : Bool → Bool → Bool
agree c true = c
agree c false = not c

encode-agree :
    (x y : Shape) (c b : Bool)
    → value_equal (encode x c) (encode y b) ≡ (same_shape x y && agree c b)
encode-agree x y c true = encode-undone x y c
encode-agree x y c false = encode-plain x y c

new_of-injective : (d e : Bool) → same_set (new_of d) (new_of e) ≡ true → d ≡ e
new_of-injective d e h = ground arith

pub new_of-old_of : (d e : Bool) → same_set (new_of d) (old_of e) ≡ false
new_of-old_of d e = ground arith

and_false : (a b : Bool) → b ≡ false → (a && b) ≡ false
and_false a b h = ground arith

-- A count at or below the retractions.
abbrev pub is_skipped : Bool → ℕ → ℕ → Bool
is_skipped undo a u = ltb a u || (a == u && not undo)

skipped_beyond :
    (undo : Bool) (a u : ℕ)
    → is_skipped undo (one (not undo) + a) (one undo + u) ≡ true
    → one (not undo) + a - (one undo + u) ≡ a - u
skipped_beyond true a u h = ground arith
skipped_beyond false a u h = ground arith

stored_same : (a u : ℕ) → stored_count a u ≡ stored_count (0 + a) (0 + u)
stored_same a u = ground arith

pub added_beyond : (a u : ℕ) → is_skipped false (1 + a) (0 + u) ≡ false → u ≤ a
added_beyond a u h = ground arith

pub undone_beyond : (a u : ℕ) → is_skipped true (0 + a) (1 + u) ≡ false → suc u ≤ a
undone_beyond a u h = ground arith

module _ (lib : JoinLibraries) (o : JoinStorage) (laws : JoinLaws o) (side : Shape → Bool)
    (s s1 : o.JoinState) (a u : Shape → ℕ) (x : Shape) (undo : Bool) (normal : Normal lib x)
    (kept : Kept lib o laws side s a u) where
  abbrev a' : ℕ
  a' = one (not undo) + a x

  abbrev u' : ℕ
  u' = one undo + u x

  abbrev pub Counted : Type 0
  Counted =
      (j : Value)
      → laws.counter s1 j
        ≡ (if value_equal (encode x false) j then stored_count a' u' else laws.counter s j)

  abbrev pub SameSets : Type 0
  SameSets = (set : RecordSet) (j : Value) → laws.number s1 set j ≡ laws.number s set j

  counted_lem :
      Counted
      → (y : Shape)
      → laws.counter s1 (encode y false)
        ≡ stored_count (one_more x (not undo) a y) (one_more x undo u y)
  counted_lem c y = elim (Bool-cases (same_shape x y)) [
    | inl h ↦
        let same : x ≡ y = same_shape_sound x y h in
        rw (c (encode y false), encode-plain x y false, h, ← same) refl
    | inr h ↦
        rw (c (encode y false), encode-plain x y false, h)
          (kept.counted y ∙ stored_same (a y) (u y))
  ]

  pub skipped_Kept :
      Counted
      → SameSets
      → is_skipped undo a' u' ≡ true
      → Kept lib o laws side s1 (one_more x (not undo) a) (one_more x undo u)
  skipped_Kept c n h =
      Kept-of_one lib o laws side s s1 a u x undo kept (counted_lem c) (λ y b e. n _ _)
        (λ d v. n _ _)
        (rw
          (
            n (new_of (side x)) (encode x false),
            n (new_of (side x)) (encode x true),
            same_shape_refl x,
            skipped_beyond undo (a x) (u x) h,
          )
          (kept.balanced x))
        (rw (n (new_of (side x)) (encode x true)) (kept.covered x))
        (λ d v ne. kept.new_holds d v (λ e. ne (n (new_of d) v ∙ e)))

  -- The number of one encoding of the shape in the new set is changed.
  module _ (s2 : o.JoinState) (c : Bool) (m : ℕ) (counted : Counted) (sets : SameSets)
      (same_counts : (j : Value) → laws.counter s2 j ≡ laws.counter s1 j)
      (changed : (other : RecordSet) (j : Value)
        → laws.number s2 other j ≡ (
            if same_set (new_of (side x)) other && value_equal (encode x c) j
            then m
            else laws.number s1 other j)) where
    pub number_at :
        (b : Bool)
        → new_number lib o laws side s2 x b
          ≡ (if agree c b then m else new_number lib o laws side s x b)
    number_at b =
        rw
          (
            changed (new_of (side x)) (encode x b),
            same_set_refl (new_of (side x)),
            encode-agree x x c b,
            same_shape_refl x,
            sets (new_of (side x)) (encode x b),
          )
          refl

    number_other :
        (y : Shape) (b : Bool)
        → same_shape x y ≡ false
        → new_number lib o laws side s2 y b ≡ new_number lib o laws side s y b
    number_other y b h =
        rw
          (
            changed (new_of (side y)) (encode y b),
            encode-agree x y c b,
            h,
            and_false (same_set (new_of (side x)) (new_of (side y))) false refl,
            sets (new_of (side y)) (encode y b),
          )
          refl

    holds_lem : (d : Bool) → Holds lib o laws (IsOf lib o laws side d) s2 (new_of d)
    holds_lem d v ne =
        elim (Bool-cases (same_set (new_of (side x)) (new_of d) && value_equal (encode x c) v)) [
          | inl h ↦
              let (hs, hv) = both _ _ h in
              (
                x,
                c,
                sym ((value_equal_iff (encode x c) v).0 hv),
                (normal, new_of-injective (side x) d hs),
              )
          | inr h ↦ kept.new_holds d v (λ e. ne (rw (changed (new_of d) v, h, sets (new_of d) v) e))
        ]
      where
        both : (p q : Bool) → (p && q) ≡ true → (p ≡ true) × (q ≡ true)
        both p q h = ground arith

    pub entered_Kept :
        new_number lib o laws side s2 x false + old_number lib o laws side s x
          ≡ new_number lib o laws side s2 x true + (a' - u')
        → new_number lib o laws side s2 x true ≤ old_number lib o laws side s x
        → Kept lib o laws side s2 (one_more x (not undo) a) (one_more x undo u)
    entered_Kept balance cover =
        Kept-of_one lib o laws side s s2 a u x undo kept
          (λ y. same_counts (encode y false) ∙ counted_lem counted y) number_other
          (λ d v. rw (changed (old_of d) v, new_of-old_of (side x) d) (sets (old_of d) v))
          (rw (same_shape_refl x) balance) cover holds_lem
