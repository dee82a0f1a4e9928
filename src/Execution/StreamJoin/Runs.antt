-- ===== src/Execution/StreamJoin/Runs.antt =====
-- execution/stream_join.go: runs of a key of a join, records from either side and triggers.
use octosql.Base.{
  ℕ, suc, ◌+◌, ◌<◌, Bool, not, ◌&&◌, List, [], ◌∷◌, Bytes, Outcome, ok, ◌>>=◌, ◌≡◌, arith,
}
use octosql.Base.Int.{sign_bit}
use octosql.Value.{Value}
use octosql.Execution.Records.{Record}
use octosql.Execution.OrderBy.Counted.{one}
use octosql.Execution.StreamJoin.{JoinStorage, new_set, add_joined, trigger_joined}
use octosql.Execution.StreamJoin.Pairs.{JoinType, JoinLibraries}
use octosql.Execution.StreamJoin.Sets.{JoinLaws}
use octosql.Execution.StreamJoin.Shapes.{Shape, shape_of, same_shape, Normal}
use octosql.Execution.StreamJoin.Kept.{new_of, Kept}

pub data JoinEvent : Type 0 where
  arrives : ℕ → Record → JoinEvent
  triggers : JoinEvent

-- How often a shape arrives as a record, and as a retraction.
abbrev pub added : List JoinEvent → Shape → ℕ
added [] y = 0
added (triggers ∷ es) y = added es y
added (arrives i r ∷ es) y = one (same_shape (shape_of r) y && not r.metadata.undo) + added es y

abbrev pub retracted : List JoinEvent → Shape → ℕ
retracted [] y = 0
retracted (triggers ∷ es) y = retracted es y
retracted (arrives i r ∷ es) y = one (same_shape (shape_of r) y && r.metadata.undo) + retracted es y

module _ (lib : JoinLibraries) (o : JoinStorage) (event_field : Bytes) (join_type : JoinType) where
  unfoldable pub run_joined : o.JoinState → List JoinEvent → Outcome o.JoinState
  run_joined s [] = ok s
  run_joined s (arrives i r ∷ es) = do s' ← add_joined lib o s i r; run_joined s' es
  run_joined s (triggers ∷ es) = do
    (s', sent) ← trigger_joined lib o event_field join_type s
    run_joined s' es

  module _ (laws : JoinLaws o) (side : Shape → Bool) where
    -- Each record has names as the program writes them and as many data, and comes on its side.
    abbrev pub AllArrive : List JoinEvent → Type 0
    AllArrive [] = Unit
    AllArrive (triggers ∷ es) = AllArrive es
    AllArrive (arrives i r ∷ es) =
        (Normal lib (shape_of r) × (new_set i ≡ ok (new_of (side (shape_of r))))) × AllArrive es

    small_here : (c : Bool) (a u n : ℕ) → a + u + suc n < sign_bit → suc (a + u) < sign_bit
    small_here c a u n h = omega (arith, h)
