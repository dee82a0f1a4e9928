-- ===== src/Triggers/CountingLaws.antt =====
-- Theorems about execution/trigger/counting.go.
use octosql.Base.{
  ℕ, ◌+◌, ◌%◌, ◌<◌, ◌≡◌, ◌≢◌, not_found, refl, sym, ap, ◌∙◌, false, List, [], ◌∷◌, Option, none,
  some, Outcome, ok, err, ◌>>=◌, ◌==◌, if◌then◌else◌, arith, Bool-cases, inl, inr, ==_iff,
}
use native.Mathlib.Nat.{mod-add-mod, mod_self, mod-lt, mod-eq_of_lt, zero-mod}
use octosql.Base.Int.{int_add, sign_bit}
use octosql.Value.{Value, int, value_equal}
use octosql.Storage.{StorageOps, StorageLaws, or_zero, found}
use octosql.Storage.Cells.{get-write}
use octosql.Aggregates.DistinctLaws.{Counts, with_count, HoldsCounts, put_count}
use octosql.Triggers.Counting.{CountingState, record_received, poll_keys_to_fire}

-- The keys that each record fires: its own where the number of its records reaches a multiple of `n`.
abbrev pub firings : ℕ → Counts → List Value → List (List Value)
firings n f [] = []
firings n f (key ∷ keys) =
    let rest = firings n (with_count f key (f key + 1)) keys in
    if (f key + 1) % n == 0 then (key ∷ []) ∷ rest else [] ∷ rest

module _ (o : StorageOps) (fire_every : ℕ) where
  -- A run that takes in records by their keys and polls after each one.
  abbrev pub fire_each : CountingState o → List Value → Outcome (List (List Value))
  fire_each s [] = ok []
  fire_each s (key ∷ keys) = do
    s' ← record_received o fire_every s key
    (fired, s'') ← poll_keys_to_fire o s'
    rest ← fire_each s'' keys
    ok (fired ∷ rest)

-- One more record on a count modulo `n`: it becomes full, or grows by one.
full_count : (n c : ℕ) → 0 < n → c % n + 1 ≡ n → (c + 1) % n ≡ 0
full_count n c p e = sym (mod-add-mod c n 1) ∙ ap (λ k. k % n) e ∙ mod_self n

growing_count : (n c : ℕ) → 0 < n → c % n + 1 ≢ n → (c + 1) % n ≡ c % n + 1
growing_count n c p ne = let b = mod-lt c p in sym (mod-add-mod c n 1) ∙ mod-eq_of_lt (omega arith)

==-suc : (a : ℕ) → (a + 1 == 0) ≡ false
==-suc a = ground arith

module _ (o : StorageOps) (laws : StorageLaws o) (n : ℕ) (pos : 0 < n) (bound : n < sign_bit) where
  abbrev remainders : Counts → Counts
  remainders f = λ j. f j % n

  -- The counts after one more record of the key, whose remainder is then `w`.
  counted :
      (f : Counts) (key : Value) (w : ℕ) (j : Value)
      → (f key + 1) % n ≡ w
      → with_count (remainders f) key w j ≡ remainders (with_count f key (f key + 1)) j
  counted f key w j e = elim (Bool-cases (value_equal key j)) [
    | inl t ↦ rw t (sym e)
    | inr t ↦ rw t refl
  ]

  put_remainder :
      (m : o.Map) (f : Counts) (key : Value) (w : ℕ) (x : Option Value)
      → HoldsCounts o laws m (remainders f)
      → (f key + 1) % n ≡ w
      → or_zero (found x) ≡ ok (int w)
      → HoldsCounts o laws (laws.put m key x) (remainders (with_count f key (f key + 1)))
  put_remainder m f key w x h e k j =
      put_count o laws m (remainders f) key w x h k j ∙ ap (λ i. ok (int i)) (counted f key w j e)

  poll_full :
      (m : o.Map) (c : o.Cell) (key : Value)
      → poll_keys_to_fire o (m, laws.write c (some key))
        ≡ ok (key ∷ [], (m, laws.write (laws.write c (some key)) none))
  unfolding poll_keys_to_fire
  poll_full m c key =
      rw (get-write o laws c (some key), poll_keys_to_fire)
        (rw (laws.cell_clear_lem (laws.write c (some key))) refl)

  poll_empty :
      (m : o.Map) (c : o.Cell)
      → o.cell_get c ≡ err not_found
      → poll_keys_to_fire o (m, c) ≡ ok ([], (m, c))
  unfolding poll_keys_to_fire
  poll_empty m c e = rw (e, poll_keys_to_fire)

  fire_each_run :
      (keys : List Value) (m : o.Map) (c : o.Cell) (f : Counts)
      → HoldsCounts o laws m (remainders f)
      → o.cell_get c ≡ err not_found
      → fire_each o n (m, c) keys ≡ ok (firings n f keys)
  unfolding record_received
  fire_each_run [] m c f h e = refl
  fire_each_run (key ∷ keys) m c f h e =
      let b = mod-lt (f key) pos in
      let r = f key % n + 1 in
      let next = with_count f key (f key + 1) in
      let sum : int_add (f key % n) 1 ≡ r = omega arith in
      rw (h key) (
        rw sum (elim (Bool-cases (r == n)) [
          | inl t ↦
              let z = full_count n (f key) pos ((==_iff r n).0 t) in
              rw t (
                rw (laws.map_delete_lem m key) (
                  rw (laws.cell_set_lem c key) (
                    rw (poll_full (laws.put m key none) c key, z)
                      (rw
                        (fire_each_run keys (laws.put m key none) _ next
                          (put_remainder m f key 0 none h z refl)
                          (get-write o laws (laws.write c (some key)) none))
                        refl))))
          | inr t ↦
              let g = growing_count n (f key) pos (λ q. cc (t, (==_iff r n).1 q)) in
              let m' = laws.put m key (some (int r)) in
              rw t (
                rw (laws.map_set_lem m key (int r)) (
                  rw (poll_empty m' c e, g, ==-suc (f key % n))
                    (rw (fire_each_run keys m' c next (put_remainder m f key r _ h g refl) e)
                      refl)))
        ]))

  -- The counting trigger over a store that works, polled after every record, on counts that start
  -- empty and with no key to send: no operation fails, and a record fires its key, and no other,
  -- exactly where the number of the key's records so far is a multiple of the trigger's `n`, a
  -- positive int64.
  pub fire_each-firings :
      (keys : List Value) (m : o.Map) (c : o.Cell)
      → ((j : Value) → laws.lookup m j ≡ none)
      → laws.content c ≡ none
      → fire_each o n (m, c) keys ≡ ok (firings n (λ _. 0) keys)
  fire_each-firings keys m c h e =
      fire_each_run keys m c (λ _. 0)
        (λ j.
          ap or_zero (laws.map_get_lem m j ∙ ap found (h j))
          ∙ ap (λ k. ok (int k)) (sym (zero-mod n)))
        (laws.cell_get_lem c ∙ ap found e)
