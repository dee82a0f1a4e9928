-- ===== src/Triggers/TimeSortedKeysLaws.antt =====
-- Theorems about execution/trigger/timesortedkeys.go.
use octosql.Base.{
  ℕ, Bool, true, false, ◌≡◌, ◌↔◌, refl, ap, ◌∙◌, Option, none, some, ok, err, not_found, arith, inl,
  inr, Option-cases,
}
use octosql.Value.{Value, null, time, value_equal, value_equal_iff}
use octosql.SortedKeys.{make_time}
use octosql.Storage.{StorageOps, StorageLaws, found}
use octosql.Triggers.TimeSortedKeys.{
  time_key, TimeSortedKeys, forget_old_time, update, delete, delete_by_key,
}

module _ (valid_time : ℕ → ℕ → Bool) (o : StorageOps) (laws : StorageLaws o) where
  -- The two maps mirror each other: an entry by time is an entry by key.
  abbrev pub Mirrors : TimeSortedKeys valid_time o → Type 0
  Mirrors s =
      (k t : Value) → (laws.lookup s.0 (time_key t k) ≡ some null) ↔ (laws.lookup s.1 k ≡ some t)

  -- They mirror each other but for one key, which is not in the map by time.
  abbrev MirrorsWithout : Value → TimeSortedKeys valid_time o → Type 0
  MirrorsWithout key s =
      (k t : Value)
      → (laws.lookup s.0 (time_key t k) ≡ some null)
        ↔ ((value_equal key k ≡ false) × (laws.lookup s.1 k ≡ some t))

  read :
      (m : o.Map) (key : Value) {r : Option Value}
      → laws.lookup m key ≡ r
      → o.map_get m key ≡ found r
  read m key e = laws.map_get_lem m key ∙ ap found e

  removed :
      (bt bk : o.Map) (key old : Value)
      → Mirrors (bt, bk)
      → laws.lookup bk key ≡ some old
      → MirrorsWithout key (laws.put bt (time_key old key) none, bk)
  removed bt bk key old h e k t =
      rw (laws.lookup-put bt (time_key old key) none (time_key t k))
        (ground (arith, h k t, value_equal_iff old t, value_equal_iff key k))

  forgotten :
      (bt bk : o.Map) (key : Value)
      → Mirrors (bt, bk)
      → (bt' : o.Map) × (forget_old_time valid_time o (bt, bk) key ≡ ok bt')
        × MirrorsWithout key (bt', bk)
  unfolding forget_old_time
  forgotten bt bk key h = elim (Option-cases (laws.lookup bk key)) [
    | inl e ↦
        rw (read bk key e, forget_old_time)
          (bt, refl, λ k t. ground (arith, h k t, value_equal_iff key k))
    | inr (old, e) ↦
        rw (read bk key e, forget_old_time)
          (rw (laws.map_delete_lem bt (time_key old key)) (_, refl, removed bt bk key old h e))
  ]

  added :
      (bt bk : o.Map) (key t0 : Value)
      → MirrorsWithout key (bt, bk)
      → Mirrors (laws.put bt (time_key t0 key) (some null), laws.put bk key (some t0))
  added bt bk key t0 h k t = rw (laws.lookup-put bt (time_key t0 key) (some null) (time_key t k)) (
      rw (laws.lookup-put bk key (some t0) k)
        (ground (arith, h k t, value_equal_iff t0 t, value_equal_iff key k)))

  -- `Update` keeps the two maps of a store that works mirroring each other: given a time that
  -- protobuf accepts, it does not fail, and the key then has that time.
  pub update-Mirrors :
      (s : TimeSortedKeys valid_time o) (key : Value) (sec nsec : ℕ)
      → valid_time sec nsec ≡ true
      → Mirrors s
      → (s' : TimeSortedKeys valid_time o) × (update valid_time o s key (sec, nsec) ≡ ok s')
        × Mirrors s'
        × (laws.lookup s'.1 key ≡ some (time sec nsec))
  unfolding update make_time
  update-Mirrors (bt, bk) key sec nsec valid h =
      let (bt', e, h') = forgotten bt bk key h in
      let t = time sec nsec in
      rw e (
        rw valid (
          rw (laws.map_set_lem bt' (time_key t key) null) (
            rw (laws.map_set_lem bk key t) (
              _,
              refl,
              added bt' bk key t h',
              laws.lookup-put bk key (some t) key ∙ rw ((value_equal_iff key key).1 refl) refl,
            ))))

  deleted :
      (bt bk : o.Map) (key t0 : Value)
      → Mirrors (bt, bk)
      → laws.lookup bk key ≡ some t0
      → Mirrors (laws.put bt (time_key t0 key) none, laws.put bk key none)
  deleted bt bk key t0 h e k t = rw (laws.lookup-put bt (time_key t0 key) none (time_key t k)) (
      rw (laws.lookup-put bk key none k)
        (ground (arith, h k t, value_equal_iff t0 t, value_equal_iff key k)))

  -- `DeleteByKey` keeps the two maps of a store that works mirroring each other: of a key with a time
  -- that protobuf accepts it removes both entries without failing, and on a key without a time it
  -- fails with the error that it was not found.
  pub delete_by_key-Mirrors :
      (s : TimeSortedKeys valid_time o) (key other : Value) (sec nsec : ℕ)
      → valid_time sec nsec ≡ true
      → Mirrors s
      → laws.lookup s.1 key ≡ some (time sec nsec)
      → laws.lookup s.1 other ≡ none
      → ((s' : TimeSortedKeys valid_time o) × (delete_by_key valid_time o s key ≡ ok s')
          × Mirrors s'
          × (laws.lookup s'.1 key ≡ none))
        × (delete_by_key valid_time o s other ≡ err not_found)
  unfolding delete_by_key delete make_time
  delete_by_key-Mirrors (bt, bk) key other sec nsec valid h e f =
      let t = time sec nsec in
      (
        rw (read bk key e) (
            rw valid (
              rw (laws.map_delete_lem bt (time_key t key)) (
                rw (laws.map_delete_lem bk key) (
                  _,
                  refl,
                  deleted bt bk key t h e,
                  laws.lookup-put bk key none key ∙ rw ((value_equal_iff key key).1 refl) refl,
                )))),
        rw (read bk other f) refl,
      )
