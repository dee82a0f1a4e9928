-- ===== src/Execution/GroupBy/Outputs.antt =====
-- What a consumer of the output of a group knows: the values that it was sent and that were not
-- retracted since.
use octosql.Base.{◌≡◌, refl, true, false, List, [], ◌∷◌, ◌++◌, Option, none, some, Bytes}
use octosql.Value.{Value, Values, tuple}
use octosql.Execution.Records.{Record}
use octosql.Execution.GroupBy.{GroupLibraries, with_event_time}

-- What `proto.Equal` of two records promises of their values: they are the same, up to an equivalence
-- that the values of floats ask for (0 and -0 are equal).
pub record RecordComparison (lib : GroupLibraries) : Type 1 where
  pub Same : Values → Values → Type 0
  pub same_refl : (v : Values) → Same v v
  pub same_trans : {u v w : Values} → Same u v → Same v w → Same u w
  pub records_equal_lem :
      (r s : Record) → lib.records_equal r s ≡ true → Same r.record_data s.record_data

module _ (Same : Values → Values → Type 0) where
  -- A record is sent only where nothing is known, and what is retracted is what is known.
  pub data Follows : Option Values → List Record → Option Values → Type 0 where
    quiet : {shown : Option Values} → Follows shown [] shown
    sends :
        {r : Record} {rs : List Record} {shown : Option Values}
        → r.metadata.undo ≡ false
        → Follows (some r.record_data) rs shown
        → Follows none (r ∷ rs) shown
    retracts :
        {v : Values} {r : Record} {rs : List Record} {shown : Option Values}
        → r.metadata.undo ≡ true
        → Same v r.record_data
        → Follows none rs shown
        → Follows (some v) (r ∷ rs) shown

  pub Follows-append :
      {a b c : Option Values} {rs ts : List Record}
      → Follows a rs b
      → Follows b ts c
      → Follows a (rs ++ ts) c
  Follows-append quiet k = k
  Follows-append (sends u f) k = sends u (Follows-append f k)
  Follows-append (retracts u e f) k = retracts u e (Follows-append f k)

  -- What is known is what the storage has as the tuple triggered before.
  abbrev pub Agrees : Option Values → Option Value → Type 0
  Agrees none none = Unit
  Agrees (some v) (some (tuple w)) = Same v w
  Agrees _ _ = ⊥

pub record_data-with_event_time :
    (f : Option Bytes) (r : Record) → (with_event_time f r).record_data ≡ r.record_data
record_data-with_event_time none r = refl
record_data-with_event_time (some f) r = refl

pub undo-with_event_time :
    (f : Option Bytes) (r : Record) → (with_event_time f r).metadata.undo ≡ r.metadata.undo
undo-with_event_time none r = refl
undo-with_event_time (some f) r = refl
