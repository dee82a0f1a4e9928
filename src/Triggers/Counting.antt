-- ===== src/Triggers/Counting.antt =====
-- execution/trigger/counting.go.
use octosql.Base.{
  ℕ, Bool, false, List, [], ◌∷◌, Option, none, some, Outcome, ok, err, panic, ◌>>=◌, ◌==◌,
  if◌then◌else◌, not_found,
}
use octosql.Base.Int.{int_add}
use octosql.Value.{Value, int}
use octosql.Storage.{StorageOps, or_zero}
use octosql.Aggregates.{as_int}
use octosql.Expression.Relation.{Libraries}

-- `foundToSend && octosql.AreEqual(key, out)`.
abbrev is_found : Libraries → Option Value → Value → Bool
is_found lib none key = false
is_found lib (some out) key = lib.are_equal key out

module _ (o : StorageOps) where
  -- The counts of the keys, and the key to send.
  abbrev pub CountingState : Type 0
  CountingState = o.Map × o.Cell

  -- `RecordReceived`, of a trigger that fires every `fire_every` records.
  unfoldable pub record_received : ℕ → CountingState → Value → Outcome CountingState
  record_received fire_every (counts, to_send) key = do
    current ← or_zero (o.map_get counts key)
    let count = int_add (as_int current) 1
    if count == fire_every
        then (do
          counts' ← o.map_delete counts key
          to_send' ← o.cell_set to_send key
          ok (counts', to_send'))
        else (do counts' ← o.map_set counts key (int count); ok (counts', to_send))

  unfoldable pub poll_keys_to_fire : CountingState → Outcome (List Value × CountingState)
  poll_keys_to_fire (counts, to_send) = elim (o.cell_get to_send) [
    | ok out ↦ o.cell_clear to_send >>= λ to_send'. ok (out ∷ [], (counts, to_send'))
    | err e ↦ elim e [ not_found ↦ ok ([], (counts, to_send)) | other ↦ err other ]
    | panic ↦ panic
  ]

  module _ (lib : Libraries) where
    -- The loop over the keys; `found` is the key to send where there is one.
    unfoldable pub each_fired : Option Value → CountingState → List Value → Outcome CountingState
    each_fired found s [] = ok s
    each_fired found (counts, to_send) (key ∷ keys) =
        let rest = each_fired found (counts, to_send) keys in
        elim (o.map_get counts key) [
          | ok count ↦ o.map_delete counts key >>= λ counts'. ok (counts', to_send)
          | err e ↦ elim e [
            | not_found ↦
                if is_found lib found key
                then (o.cell_clear to_send >>= λ to_send'. ok (counts, to_send'))
                else rest
            | other ↦ err other
          ]
          | panic ↦ panic
        ]

    unfoldable pub keys_fired : CountingState → List Value → Outcome CountingState
    keys_fired (counts, to_send) keys = elim (o.cell_get to_send) [
      | ok out ↦ each_fired (some out) (counts, to_send) keys
      | err e ↦ elim e [ not_found ↦ each_fired none (counts, to_send) keys | other ↦ err other ]
      | panic ↦ panic
    ]
