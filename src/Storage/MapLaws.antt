-- ===== src/Storage/MapLaws.antt =====
-- Theorems about storage/value_state.go and storage/map.go.
use octosql.Base.{
  ℕ, Bool, false, ◌≡◌, ◌≢◌, refl, sym, ap, ◌∙◌, [], Bytes, bytes_equal, bytes_equal_iff, ok, err,
  >>=-eq-ok, not_found, Bool-cases, inl, inr,
}
use octosql.Value.{Value}
use octosql.SortedKeys.{monotonic_marshal}
use octosql.SortedKeys.Reading.{IsStorable}
use octosql.SortedKeys.RoundTrip.{encodes, monotonic_marshal-injective}
use octosql.Storage.Transactions.{Transactions, TransactionLaws}
use octosql.Storage.Maps.{state_set, state_get, state_clear, map_set, map_get, map_delete}

module _ (t : Transactions) (laws : TransactionLaws t) where
  -- A value state yields what was set last, and where it is cleared after that, it has nothing.
  pub state_get-state_clear :
      (tx : t.Transaction) (v : Value) {tx' tx'' : t.Transaction}
      → state_set t tx v ≡ ok tx'
      → state_clear t tx' ≡ ok tx''
      → (state_get t tx' ≡ ok v) × (state_get t tx'' ≡ err not_found)
  unfolding state_get state_set state_clear
  state_get-state_clear tx v {tx'} h k =
      let (b, e, s) = >>=-eq-ok (t.proto_marshal v) _ h in
      (
        rw (laws.tx_get-tx_set tx [] b [] s) (laws.proto_unmarshal-proto_marshal v e),
        rw (laws.tx_get-tx_delete tx' [] [] k) refl,
      )

  module _ (valid_time : ℕ → ℕ → Bool) (k : Value) (sk : IsStorable valid_time k) where
    -- Different storable keys have different encodings.
    other_key :
        (j : Value) {bk bj : Bytes}
        → IsStorable valid_time j
        → k ≢ j
        → monotonic_marshal k ≡ ok bk
        → monotonic_marshal j ≡ ok bj
        → bytes_equal bk bj ≡ false
    other_key j {bk} {bj} sj ne ek ej = elim (Bool-cases (bytes_equal bk bj)) [
      | inl same ↦ absurd (
          ne (
            monotonic_marshal-injective valid_time k j sk sj
              (ek ∙ ap ok ((bytes_equal_iff bk bj).0 same) ∙ sym ej)))
      | inr other ↦ other
    ]

    -- A map yields under a storable key what was set last under it, and setting it leaves what the
    -- map yields under every other storable key as it was.
    pub map_get-map_set :
        (tx : t.Transaction) (v : Value) {tx' : t.Transaction} (j : Value)
        → IsStorable valid_time j
        → k ≢ j
        → map_set t tx k v ≡ ok tx'
        → (map_get t tx' k ≡ ok v) × (map_get t tx' j ≡ map_get t tx j)
    unfolding map_get map_set
    map_get-map_set tx v j sj ne h =
        let (bk, ek, h') = >>=-eq-ok (monotonic_marshal k) _ h in
        let (bv, ev, s) = >>=-eq-ok (t.proto_marshal v) _ h' in
        let (bj, ej) = encodes valid_time j sj in
        (
          rw ek (
              rw (laws.tx_get-tx_set tx bk bv bk s, (bytes_equal_iff bk bk).1 refl)
                (laws.proto_unmarshal-proto_marshal v ev)),
          rw ej (rw (laws.tx_get-tx_set tx bk bv bj s, other_key j sj ne ek ej) refl),
        )

    -- After a deletion a map has nothing under the deleted storable key, and what it yields under
    -- every other storable key is as it was.
    pub map_get-map_delete :
        (tx : t.Transaction) {tx' : t.Transaction} (j : Value)
        → IsStorable valid_time j
        → k ≢ j
        → map_delete t tx k ≡ ok tx'
        → (map_get t tx' k ≡ err not_found) × (map_get t tx' j ≡ map_get t tx j)
    unfolding map_get map_delete
    map_get-map_delete tx j sj ne h =
        let (bk, ek, s) = >>=-eq-ok (monotonic_marshal k) _ h in
        let (bj, ej) = encodes valid_time j sj in
        (
          rw ek (rw (laws.tx_get-tx_delete tx bk bk s, (bytes_equal_iff bk bk).1 refl) refl),
          rw ej (rw (laws.tx_get-tx_delete tx bk bj s, other_key j sj ne ek ej) refl),
        )
