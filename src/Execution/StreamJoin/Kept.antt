-- ===== src/Execution/StreamJoin/Kept.antt =====
-- execution/stream_join.go: what the sets and counts of a key hold, for the records that have arrived.
use octosql.Base.{
  ℕ, ◌+◌, ◌-◌, ◌≤◌, Bool, true, false, not, ◌&&◌, ◌≡◌, arith, Bool-cases, inl, inr, ◌∙◌,
}
use octosql.Value.{Value}
use octosql.Execution.OrderBy.Counted.{one}
use octosql.Execution.StreamJoin.{RecordSet, left_old, right_old, left_new, right_new, JoinStorage}
use octosql.Execution.StreamJoin.Pairs.{JoinLibraries}
use octosql.Execution.StreamJoin.Sets.{JoinLaws}
use octosql.Execution.StreamJoin.Shapes.{Shape, encode, same_shape, same_shape_sound, Normal}
use octosql.Execution.StreamJoin.Moves.{Holds}
use octosql.Execution.StreamJoin.Counts.{stored_count}

-- The sets of a side, the left one if true.
abbrev pub new_of : Bool → RecordSet
new_of true = left_new
new_of false = right_new

abbrev pub old_of : Bool → RecordSet
old_of true = left_old
old_of false = right_old

-- One more of a shape, where a test holds.
abbrev pub one_more : Shape → Bool → (Shape → ℕ) → Shape → ℕ
one_more x b a y = one (same_shape x y && b) + a y

module _ (lib : JoinLibraries) (o : JoinStorage) (laws : JoinLaws o) (side : Shape → Bool) where
  -- The shapes of the records of a side.
  abbrev pub IsOf : Bool → Shape → Type 0
  IsOf d x = Normal lib x × (side x ≡ d)

  abbrev pub new_number : o.JoinState → Shape → Bool → ℕ
  new_number s x b = laws.number s (new_of (side x)) (encode x b)

  abbrev pub old_number : o.JoinState → Shape → ℕ
  old_number s x = laws.number s (old_of (side x)) (encode x false)

  -- Old and new records, less the new retractions, are those added beyond those retracted, and every
  -- new retraction is of an old record.
  pub record Kept (s : o.JoinState) (a u : Shape → ℕ) : Type 0 where
    pub counted : (x : Shape) → laws.counter s (encode x false) ≡ stored_count (a x) (u x)
    pub balanced :
        (x : Shape) → new_number s x false + old_number s x ≡ new_number s x true + (a x - u x)
    pub covered : (x : Shape) → new_number s x true ≤ old_number s x
    pub new_holds : (d : Bool) → Holds lib o laws (IsOf d) s (new_of d)
    pub old_holds : (d : Bool) → Holds lib o laws (IsOf d) s (old_of d)

  -- A record of one shape changes only what is kept of the shape.
  pub Kept-of_one :
      (s s' : o.JoinState) (a u : Shape → ℕ) (x : Shape) (undo : Bool)
      → Kept s a u
      → ((y : Shape)
          → laws.counter s' (encode y false)
            ≡ stored_count (one_more x (not undo) a y) (one_more x undo u y))
      → ((y : Shape) (b : Bool) → same_shape x y ≡ false → new_number s' y b ≡ new_number s y b)
      → ((d : Bool) (v : Value) → laws.number s' (old_of d) v ≡ laws.number s (old_of d) v)
      → new_number s' x false + old_number s x
        ≡ new_number s' x true + (one_more x (not undo) a x - one_more x undo u x)
      → new_number s' x true ≤ old_number s x
      → ((d : Bool) → Holds lib o laws (IsOf d) s' (new_of d))
      → Kept s' (one_more x (not undo) a) (one_more x undo u)
  Kept-of_one s s' a u x undo k c others olds balance cover holds = record {
    counted = c;
    balanced = λ y. elim (Bool-cases (same_shape x y)) [
      | inl h ↦
          let same : x ≡ y = same_shape_sound x y h in
          rw (← same, olds (side x) (encode x false)) balance
      | inr h ↦
          rw (others y false h, others y true h, olds (side y) (encode y false), h)
            (omega (arith, k.balanced y))
    ];
    covered = λ y. elim (Bool-cases (same_shape x y)) [
      | inl h ↦
          let same : x ≡ y = same_shape_sound x y h in
          rw (← same, olds (side x) (encode x false)) cover
      | inr h ↦ rw (others y true h, olds (side y) (encode y false)) (k.covered y)
    ];
    new_holds = holds;
    old_holds = λ d v ne. k.old_holds d v (λ e. ne (olds d v ∙ e));
  }
