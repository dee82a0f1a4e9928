-- ===== src/Execution/OrderBy/Counted.antt =====
-- What the store of order_by.go holds after some records: how often each key was added and undone.
use octosql.Base.{
  ℕ, ◌+◌, ◌-◌, ◌%◌, ◌<◌, Bool, true, false, not, ◌&&◌, ◌||◌, List, [], ◌∷◌, Bytes, Option, none,
  some, Outcome, ok, err, panic, ◌≡◌, refl, ◌==◌, if◌then◌else◌, bytes_equal, bytes_equal_iff,
  arith, Bool-cases, inl, inr, ◌∙◌, sym, ap, after_ok,
}
use octosql.Base.Int.{word_mod, sign_bit}
use octosql.Value.{Value, int}
use octosql.Execution.Records.{Record}
use octosql.Execution.OrderBy.{
  OrderStorage, OrderLibraries, OrderExpression, order_key, next_count, add_ordered,
}
use octosql.Execution.OrderBy.Entries.{
  OrderLaws, Ascends, is_entered, entry_step, insert_entry, Ascends-insert_entry,
  is_entered-insert_entry,
}

abbrev pub one : Bool → ℕ
one true = 1
one false = 0

-- The count of a key that was added and undone so often.
abbrev pub net : ℕ → ℕ → ℕ
net a u = (a + word_mod - u) % word_mod

abbrev pub tally : ℕ → ℕ → Option Value
tally a u = if a + u == 0 then none else some (int (net a u))

-- One more of a key, where a test holds.
abbrev pub more : Bytes → Bool → (Bytes → ℕ) → Bytes → ℕ
more j b a k = one (bytes_equal j k && b) + a k

next_tally :
    (undo : Bool) (a u : ℕ)
    → a + u < sign_bit
    → tally (one (not undo) + a) (one undo + u) ≡ some (int (next_count undo (net a u)))
next_tally true a u h = ground arith
next_tally false a u h = ground arith

tally_same : (a u : ℕ) → tally a u ≡ tally (0 + a) (0 + u)
tally_same a u = ground arith

module _ (lib : OrderLibraries) (expressions : List OrderExpression) where
  abbrev pub is_key : Bytes → Outcome Bytes → Bool
  is_key k (ok j) = bytes_equal j k
  is_key k (err e) = false
  is_key k panic = false

  abbrev pub has_key : Bytes → Record → Bool
  has_key k r = is_key k (order_key lib expressions r)

  -- How often records with a key are added, and undone.
  abbrev pub added : List Record → Bytes → ℕ
  added [] k = 0
  added (r ∷ rs) k = one (has_key k r && not r.metadata.undo) + added rs k

  abbrev pub undone : List Record → Bytes → ℕ
  undone [] k = 0
  undone (r ∷ rs) k = one (has_key k r && r.metadata.undo) + undone rs k

  abbrev pub HasKey : Record → Type 0
  HasKey r = (k : Bytes) × (order_key lib expressions r ≡ ok k)

  abbrev pub HaveKeys : List Record → Type 0
  HaveKeys [] = Unit
  HaveKeys (r ∷ rs) = HasKey r × HaveKeys rs

  -- The records are stored by their keys.
  abbrev pub AllKeyed : List (Bytes × Record) → Type 0
  AllKeyed [] = Unit
  AllKeyed ((k, r) ∷ es) = (order_key lib expressions r ≡ ok k) × AllKeyed es

  AllKeyed-insert_entry :
      (k : Bytes) (r : Record) (es : List (Bytes × Record))
      → order_key lib expressions r ≡ ok k
      → AllKeyed es
      → AllKeyed (insert_entry k r es)
  AllKeyed-insert_entry k r [] e a = (e, tt)
  AllKeyed-insert_entry k r ((i, q) ∷ es) e (h, a) =
      ground (arith, AllKeyed-insert_entry k r es e a)

  module _ (o : OrderStorage) (laws : OrderLaws o) where
    pub record Tallied (s : o.OrderState) (a u : Bytes → ℕ) : Type 0 where
      pub counted : (k : Bytes) → laws.counts s k ≡ tally (a k) (u k)
      pub entered : (k : Bytes) → is_entered k (laws.entries s) ≡ not (a k + u k == 0)
      pub ascends : Ascends (laws.entries s)
      pub keyed : AllKeyed (laws.entries s)

    pub Tallied-of_eq :
        {s : o.OrderState} (a u a' u' : Bytes → ℕ)
        → ((k : Bytes) → a k ≡ a' k)
        → ((k : Bytes) → u k ≡ u' k)
        → Tallied s a u
        → Tallied s a' u'
    Tallied-of_eq a u a' u' ea eu t = record {
      counted = λ k. rw (← ea k, ← eu k) (t.counted k);
      entered = λ k. rw (← ea k, ← eu k) (t.entered k);
      ascends = t.ascends;
      keyed = t.keyed;
    }

    -- The record of a key arrives in a state, with the new counts.
    module _ (s : o.OrderState) (a u : Bytes → ℕ) (r : Record) (j : Bytes)
        (key : order_key lib expressions r ≡ ok j) (t : Tallied s a u)
        (small : a j + u j < sign_bit) where
      abbrev more_added : Bytes → ℕ
      more_added = more j (not r.metadata.undo) a

      abbrev more_undone : Bytes → ℕ
      more_undone = more j r.metadata.undo u

      abbrev counted_state : o.OrderState → o.OrderState
      counted_state s' = laws.put_count s' j (int (next_count r.metadata.undo (net (a j) (u j))))

      counted_lem :
          (s' : o.OrderState)
          → ((k : Bytes) → laws.counts s' k ≡ laws.counts s k)
          → (k : Bytes) → laws.counts (counted_state s') k ≡ tally (more_added k) (more_undone k)
      counted_lem s' same k = elim (Bool-cases (bytes_equal j k)) [
        | inl e ↦
            let e' : j ≡ k = (bytes_equal_iff j k).0 e in
            rw
              (laws.counts-put_count s' j (int (next_count r.metadata.undo (net (a j) (u j)))) k, e)
              (rw (← e') (sym (next_tally r.metadata.undo (a j) (u j) small)))
        | inr e ↦
            rw
              (laws.counts-put_count s' j (int (next_count r.metadata.undo (net (a j) (u j)))) k, e)
              (same k ∙ (t.counted k ∙ tally_same (a k) (u k)))
      ]

      next_entered :
          (k : Bytes)
          → (bytes_equal j k || is_entered k (laws.entries s))
            ≡ not (more_added k + more_undone k == 0)
      next_entered k = elim (Bool-cases (bytes_equal j k)) [
        | inl e ↦ rw e (ground arith)
        | inr e ↦ rw (e, t.entered k) (ground arith)
      ]

      -- A key that is new.
      first_Tallied : Tallied (counted_state (laws.put_value s j r)) more_added more_undone
      first_Tallied = record {
        counted = counted_lem (laws.put_value s j r) (laws.counts-put_value s j r);
        entered = λ k.
            rw
              (
                laws.entries-put_count (laws.put_value s j r) j _,
                laws.entries-put_value s j r,
                is_entered-insert_entry j k r (laws.entries s),
              )
              (next_entered k);
        ascends =
            rw (laws.entries-put_count (laws.put_value s j r) j _, laws.entries-put_value s j r)
              (Ascends-insert_entry j r (laws.entries s) t.ascends);
        keyed =
            rw (laws.entries-put_count (laws.put_value s j r) j _, laws.entries-put_value s j r)
              (AllKeyed-insert_entry j r (laws.entries s) key t.keyed);
      }

      -- A key that is there.
      later_Tallied : (a j + u j == 0) ≡ false → Tallied (counted_state s) more_added more_undone
      later_Tallied h = record {
        counted = counted_lem s (λ k. refl);
        entered = λ k. rw (laws.entries-put_count s j _) (still_entered k ∙ next_entered k);
        ascends = rw (laws.entries-put_count s j _) t.ascends;
        keyed = rw (laws.entries-put_count s j _) t.keyed;
      }
        where
          still_entered :
              (k : Bytes)
              → is_entered k (laws.entries s) ≡ (bytes_equal j k || is_entered k (laws.entries s))
          still_entered k = elim (Bool-cases (bytes_equal j k)) [
            | inl e ↦
                let e' : j ≡ k = (bytes_equal_iff j k).0 e in rw (e, ← e', t.entered j, h) refl
            | inr e ↦ rw e refl
          ]

      first_count :
          (a j + u j == 0) ≡ true
          → o.count_set (laws.put_value s j r) j (int (next_count r.metadata.undo 0))
            ≡ ok (counted_state (laws.put_value s j r))
      first_count h =
          let nothing : net (a j) (u j) ≡ 0 = ground arith in
          laws.count_set_lem (laws.put_value s j r) j (int (next_count r.metadata.undo 0))
          ∙ ap
              (λ n.
                ok (laws.put_count (laws.put_value s j r) j (int (next_count r.metadata.undo n))))
              (sym nothing)

      pub add_ordered_lem :
          (s' : o.OrderState) × (add_ordered lib expressions o s r ≡ ok s')
          × Tallied s' (more j (not r.metadata.undo) a) (more j r.metadata.undo u)
          × (laws.entries s' ≡ entry_step j r (laws.entries s))
      unfolding add_ordered
      add_ordered_lem = elim (Bool-cases (a j + u j == 0)) [
        | inl h ↦ (
          counted_state (laws.put_value s j r),
          after_ok _ key (
              rw (laws.count_get_lem s j, t.counted j, h)
                (after_ok _ (laws.value_set_lem s j r) (first_count h))),
          first_Tallied,
          rw
              (
                laws.entries-put_count (laws.put_value s j r) j _,
                laws.entries-put_value s j r,
                t.entered j,
                h,
              )
              refl,
        )
        | inr h ↦ (
          counted_state s,
          after_ok _ key (rw (laws.count_get_lem s j, t.counted j, h) (laws.count_set_lem s j _)),
          later_Tallied h,
          rw (laws.entries-put_count s j _, t.entered j, h) refl,
        )
      ]
