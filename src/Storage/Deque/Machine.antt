-- ===== src/Storage/Deque/Machine.antt =====
-- The operations of a deque as steps on the spots and the slots.
use octosql.Base.{
  ℕ, ◌<◌, ◌≡◌, refl, ap, ◌∙◌, Bool, true, Option, none, some, ok, after_ok, Bytes, if◌then◌else◌,
  arith, Bool-cases, inl, inr,
}
use octosql.Base.Int.{word_mod}
use octosql.Value.{Value}
use octosql.Storage.Transactions.{Transactions, StoreLaws}
use octosql.Storage.Deque.{
  Spot, front_spot, back_spot, Deque, get_index_key, increase, decrease, initialize_front,
  initialize_back, ready_front, ready_back, move_front_spot, move_back_spot, push_front, push_back,
  peek_front, get_value_at_index, peek_back, remove_front, remove_back, pop_front, pop_back,
}
use octosql.Storage.Deque.Slots.{
  Spots, Slots, with_spot, with_slot, View, get_attribute_lem, modify_attribute_lem,
  get_value_at_index_lem, write_slot,
}

-- A pop of an empty slot changes nothing; any other empties the slot and moves the spot there.
abbrev pub popped_spots : Spots → Spot → ℕ → Option Value → Spots
popped_spots g attr i none = g
popped_spots g attr i (some v) = with_spot g attr i

abbrev pub popped_slots : Slots → ℕ → Option Value → Slots
popped_slots sl i none = sl
popped_slots sl i (some v) = with_slot sl i none

module _ (t : Transactions) (laws : StoreLaws t) where
  -- The storage holds the spots and slots, and a copy of a spot that is marked as read agrees.
  abbrev pub Reflects : Deque t → Spots → Slots → Type 0
  Reflects dq g sl =
      View t laws dq.tx g sl
      × (dq.initialized_front ≡ true → dq.first_free_front_spot ≡ g front_spot)
      × (dq.initialized_back ≡ true → dq.first_free_back_spot ≡ g back_spot)

  pub ready_front_lem :
      (dq : Deque t) (g : Spots) (sl : Slots)
      → Reflects dq g sl
      → (dq' : Deque t) × (ready_front t dq ≡ ok dq')
        × Reflects dq' g sl
        × (dq'.first_free_front_spot ≡ g front_spot)
  unfolding ready_front initialize_front
  ready_front_lem dq g sl (v, f, b) =
      let guard = λ (c : Bool). if c then ok dq else initialize_front t dq in
      elim (Bool-cases dq.initialized_front) [
        | inl y ↦ (dq, ap guard y, (v, f, b), f y)
        | inr n ↦
            let (s, e, v') = get_attribute_lem t laws dq.tx g sl front_spot v in
            (_, ap guard n ∙ after_ok _ e refl, (v', (λ y. refl), b), refl)
      ]

  pub ready_back_lem :
      (dq : Deque t) (g : Spots) (sl : Slots)
      → Reflects dq g sl
      → (dq' : Deque t) × (ready_back t dq ≡ ok dq')
        × Reflects dq' g sl
        × (dq'.first_free_back_spot ≡ g back_spot)
        × (dq'.first_free_front_spot ≡ dq.first_free_front_spot)
  unfolding ready_back initialize_back
  ready_back_lem dq g sl (v, f, b) =
      let guard = λ (c : Bool). if c then ok dq else initialize_back t dq in
      elim (Bool-cases dq.initialized_back) [
        | inl y ↦ (dq, ap guard y, (v, f, b), b y, refl)
        | inr n ↦
            let (s, e, v') = get_attribute_lem t laws dq.tx g sl back_spot v in
            (_, ap guard n ∙ after_ok _ e refl, (v', f, (λ y. refl)), refl, refl)
      ]

  move_front_lem :
      (dq : Deque t) (g : Spots) (sl : Slots) (m : ℕ → ℕ)
      → Reflects dq g sl
      → dq.first_free_front_spot ≡ g front_spot
      → m (g front_spot) < word_mod
      → (dq' : Deque t) × (move_front_spot t m dq ≡ ok dq')
        × Reflects dq' (with_spot g front_spot (m (g front_spot))) sl
  unfolding move_front_spot
  move_front_lem dq g sl m (v, f, b) e l =
      let (s, h, v') = modify_attribute_lem t laws dq.tx g sl front_spot m v l in
      (_, after_ok _ h refl, (v', (λ y. ap m e), b))

  move_back_lem :
      (dq : Deque t) (g : Spots) (sl : Slots) (m : ℕ → ℕ)
      → Reflects dq g sl
      → dq.first_free_back_spot ≡ g back_spot
      → m (g back_spot) < word_mod
      → (dq' : Deque t) × (move_back_spot t m dq ≡ ok dq')
        × Reflects dq' (with_spot g back_spot (m (g back_spot))) sl
  unfolding move_back_spot
  move_back_lem dq g sl m (v, f, b) e l =
      let (s, h, v') = modify_attribute_lem t laws dq.tx g sl back_spot m v l in
      (_, after_ok _ h refl, (v', f, (λ y. ap m e)))

  set_at :
      (s : t.Transaction) (i j : ℕ) (b : Bytes)
      → i ≡ j
      → t.tx_set s (get_index_key i) b ≡ ok (laws.write s (get_index_key j) (some b))
  set_at s i j b e = rw e (laws.tx_set_lem s (get_index_key j) b)

  delete_at :
      (s : t.Transaction) (i j : ℕ)
      → i ≡ j
      → t.tx_delete s (get_index_key i) ≡ ok (laws.write s (get_index_key j) none)
  delete_at s i j e = rw e (laws.tx_delete_lem s (get_index_key j))

  value_at :
      (s : t.Transaction) (g : Spots) (sl : Slots) (i j : ℕ)
      → View t laws s g sl
      → i ≡ j
      → j < word_mod
      → get_value_at_index t s i ≡ ok (sl j)
  value_at s g sl i j v e b = rw e (get_value_at_index_lem t laws s g sl j v b)

  pub push_front_lem :
      (dq : Deque t) (g : Spots) (sl : Slots) (v : Value)
      → Reflects dq g sl
      → laws.Encodable v
      → (dq' : Deque t) × (push_front t dq v ≡ ok dq')
        × Reflects dq'
            (with_spot g front_spot (decrease (g front_spot)))
            (with_slot sl (g front_spot) (some v))
  unfolding push_front
  push_front_lem dq g sl v r a =
      let (dq1, e, r1, f1) = ready_front_lem dq g sl r in
      let b = ((r1.0).0 front_spot).1 in
      let w = write_slot t laws dq1.tx g sl (g front_spot) (some v) r1.0 b a in
      let set = set_at dq1.tx dq1.first_free_front_spot (g front_spot) (laws.encoded v) f1 in
      let (dq2, m, r2) =
        move_front_lem
          (record dq1 {
            tx = laws.write dq1.tx (get_index_key (g front_spot)) (some (laws.encoded v));
          })
          g _ decrease (w, r1.1, r1.2) f1 (omega arith) in
      (dq2, after_ok _ e (after_ok _ (laws.proto_marshal_lem v a) (after_ok _ set m)), r2)

  pub push_back_lem :
      (dq : Deque t) (g : Spots) (sl : Slots) (v : Value)
      → Reflects dq g sl
      → laws.Encodable v
      → (dq' : Deque t) × (push_back t dq v ≡ ok dq')
        × Reflects dq'
            (with_spot g back_spot (increase (g back_spot)))
            (with_slot sl (g back_spot) (some v))
  unfolding push_back
  push_back_lem dq g sl v r a =
      let (dq1, e, r1, b1, _) = ready_back_lem dq g sl r in
      let b = ((r1.0).0 back_spot).1 in
      let w = write_slot t laws dq1.tx g sl (g back_spot) (some v) r1.0 b a in
      let set = set_at dq1.tx dq1.first_free_back_spot (g back_spot) (laws.encoded v) b1 in
      let s = laws.write dq1.tx (get_index_key (g back_spot)) (some (laws.encoded v)) in
      let (dq2, m, r2) =
        move_back_lem (record dq1 { tx = s }) g _ increase (w, r1.1, r1.2) b1 (omega arith) in
      (dq2, after_ok _ e (after_ok _ (laws.proto_marshal_lem v a) (after_ok _ set m)), r2)

  pub peek_front_lem :
      (dq : Deque t) (g : Spots) (sl : Slots)
      → Reflects dq g sl
      → (dq' : Deque t) × (peek_front t dq ≡ ok (sl (increase (g front_spot)), dq'))
        × Reflects dq' g sl
        × (dq'.first_free_front_spot ≡ g front_spot)
  unfolding peek_front
  peek_front_lem dq g sl r =
      let (dq1, e, r1, f1) = ready_front_lem dq g sl r in
      let v =
        value_at dq1.tx g sl _ (increase (g front_spot)) r1.0 (ap increase f1) (omega arith) in
      (dq1, after_ok _ e (after_ok _ v refl), r1, f1)

  pub peek_back_lem :
      (dq : Deque t) (g : Spots) (sl : Slots)
      → Reflects dq g sl
      → (dq' : Deque t) × (peek_back t dq ≡ ok (sl (decrease (g back_spot)), dq'))
        × Reflects dq' g sl
        × (dq'.first_free_back_spot ≡ g back_spot)
  unfolding peek_back
  peek_back_lem dq g sl r =
      let (dq1, e, r1, b1, _) = ready_back_lem dq g sl r in
      let v = value_at dq1.tx g sl _ (decrease (g back_spot)) r1.0 (ap decrease b1) (omega arith) in
      (dq1, after_ok _ e (after_ok _ v refl), r1, b1)

  pub pop_front_lem :
      (dq : Deque t) (g : Spots) (sl : Slots) (x : Option Value)
      → Reflects dq g sl
      → sl (increase (g front_spot)) ≡ x
      → (dq' : Deque t) × (pop_front t dq ≡ ok (x, dq'))
        × Reflects dq'
            (popped_spots g front_spot (increase (g front_spot)) x)
            (popped_slots sl (increase (g front_spot)) x)
  unfolding pop_front remove_front
  pop_front_lem dq g sl none r h =
      let (dq1, e, r1, f1) = peek_front_lem dq g sl r in
      (dq1, after_ok _ e (ap (λ x. remove_front t x dq1) h), r1)
  pop_front_lem dq g sl (some v) r h =
      let (dq1, e, r1, f1) = peek_front_lem dq g sl r in
      let i = increase (g front_spot) in
      let w = write_slot t laws dq1.tx g sl i none r1.0 (omega arith) tt in
      let s = laws.write dq1.tx (get_index_key i) none in
      let (dq2, m, r2) =
        move_front_lem (record dq1 { tx = s }) g _ increase (w, r1.1, r1.2) f1 (omega arith) in
      (
        dq2,
        after_ok _ e (
            ap (λ x. remove_front t x dq1) h
            ∙ after_ok _ (delete_at dq1.tx _ i (ap increase f1)) (after_ok _ m refl)),
        r2,
      )

  pub pop_back_lem :
      (dq : Deque t) (g : Spots) (sl : Slots) (x : Option Value)
      → Reflects dq g sl
      → sl (decrease (g back_spot)) ≡ x
      → (dq' : Deque t) × (pop_back t dq ≡ ok (x, dq'))
        × Reflects dq'
            (popped_spots g back_spot (decrease (g back_spot)) x)
            (popped_slots sl (decrease (g back_spot)) x)
  unfolding pop_back remove_back
  pop_back_lem dq g sl none r h =
      let (dq1, e, r1, b1) = peek_back_lem dq g sl r in
      (dq1, after_ok _ e (ap (λ x. remove_back t x dq1) h), r1)
  pop_back_lem dq g sl (some v) r h =
      let (dq1, e, r1, b1) = peek_back_lem dq g sl r in
      let i = decrease (g back_spot) in
      let w = write_slot t laws dq1.tx g sl i none r1.0 (omega arith) tt in
      let s = laws.write dq1.tx (get_index_key i) none in
      let (dq2, m, r2) =
        move_back_lem (record dq1 { tx = s }) g _ decrease (w, r1.1, r1.2) b1 (omega arith) in
      (
        dq2,
        after_ok _ e (
            ap (λ x. remove_back t x dq1) h
            ∙ after_ok _ (delete_at dq1.tx _ i (ap decrease b1)) (after_ok _ m refl)),
        r2,
      )
