-- ===== src/Storage/Deque/Clear.antt =====
-- The loop of `Clear`, and what is left after it.
use octosql.Base.{
  ℕ, zero, suc, ◌+◌, ◌-◌, ◌%◌, ◌<◌, ◌≡◌, refl, sym, ap, ◌∙◌, true, false, List, [], ◌∷◌, length,
  none, Outcome, ok, after_ok, arith, inr,
}
use octosql.Base.Int.{int_sub, int_less, word_mod, sign_bit}
use octosql.Value.{Value}
use octosql.Storage.Transactions.{Transactions, StoreLaws}
use octosql.Storage.Deque.{
  front_spot, back_spot, spot_key, get_index_key, Deque, new_deque, increase, clear_elements, clear,
}
use octosql.Storage.Deque.Slots.{Spots, Slots, with_spot, with_slot, View, write_slot, write_spot}
use octosql.Storage.Deque.Machine.{Reflects, ready_front_lem, ready_back_lem}
use octosql.Storage.Deque.Lists.{HoldsList, slot_index, pop_front-HoldsList}

pub distance :
    (f b n : ℕ) → f < word_mod → b ≡ slot_index f n → n + 2 < sign_bit → int_sub b f ≡ n + 1
distance f b n l e h = omega arith

two : (n : ℕ) → suc n + 2 < sign_bit → int_less 1 (suc n + 1) ≡ true
two n h = ground arith

goes_on :
    (f b n : ℕ)
    → f < word_mod
    → b ≡ slot_index f (suc n)
    → suc n + 2 < sign_bit
    → int_less 1 (int_sub b f) ≡ true
goes_on f b n l e h = ap (int_less 1) (distance f b (suc n) l e h) ∙ two n h

stops : (f b : ℕ) → f < word_mod → b ≡ slot_index f 0 → int_less 1 (int_sub b f) ≡ false
stops f b l e = ap (int_less 1) (distance f b 0 l e (omega arith))

back_at :
    (f i : ℕ)
    → f < word_mod
    → i < word_mod
    → slot_index f ((i + word_mod - f) % word_mod) ≡ slot_index 0 i
back_at f i l c = omega arith

emptied :
    (g h : Spots) (sl : Slots)
    → HoldsList h sl []
    → HoldsList (with_spot (with_spot g front_spot 0) back_spot 1) sl []
emptied g h sl (l, b, n, k) = (
  omega arith,
  refl,
  omega arith,
  λ i c. ap sl (sym (back_at (h front_spot) i l c)) ∙ k _ (omega arith),
)

module _ (t : Transactions) (laws : StoreLaws t) where
  Cleared : Spots → t.Transaction → Outcome t.Transaction → Type 0
  Cleared g s r =
      (s' : t.Transaction) × (r ≡ ok s')
      × (h : Spots) × (sl : Slots) × View t laws s' g sl
      × HoldsList h sl []

  clear_elements_lem :
      (xs : List Value) (fuel : ℕ) (s : t.Transaction) (g h : Spots) (sl : Slots)
      → View t laws s g sl
      → HoldsList h sl xs
      → length xs < fuel
      → Cleared g s (clear_elements t fuel s (h front_spot) (h back_spot))
  unfolding clear_elements Cleared
  clear_elements_lem xs zero s g h sl v k l = absurd (omega arith)
  clear_elements_lem [] (suc fuel) s g h sl v k l =
      rw (stops (h front_spot) (h back_spot) k.0 k.1) (s, refl, h, sl, v, k)
  clear_elements_lem (x ∷ xs) (suc fuel) s g h sl v k l =
      let i = increase (h front_spot) in
      let s' = laws.write s (get_index_key i) none in
      let rest =
        clear_elements_lem xs fuel s' g (with_spot h front_spot i) (with_slot sl i none)
          (write_slot t laws s g sl i none v (omega arith) tt) (pop_front-HoldsList h sl (x ∷ xs) k)
          (omega arith) in
      rw
        (
          goes_on (h front_spot) (h back_spot) (length xs) k.0 k.1 k.2,
          laws.tx_delete_lem s (get_index_key i),
        )
        rest

  from_copies :
      (s : t.Transaction) (f f' b b' : ℕ)
      → f ≡ f'
      → b ≡ b'
      → clear_elements t (suc (int_sub b f)) s f b ≡ clear_elements t (suc (int_sub b' f')) s f' b'
  from_copies s f f' b b' e d = rw (e, d) refl

  -- `Clear` leaves an empty deque.
  pub clear_lem :
      (dq : Deque t) (g : Spots) (sl : Slots) (xs : List Value)
      → Reflects t laws dq g sl
      → HoldsList g sl xs
      → (dq' : Deque t) × (clear t dq ≡ ok dq')
        × (h : Spots) × (sl' : Slots) × Reflects t laws dq' h sl'
        × HoldsList h sl' []
  unfolding clear Cleared
  clear_lem dq g sl xs r h =
      let (dq1, e1, r1, f1) = ready_front_lem t laws dq g sl r in
      let (dq2, e2, r2, b2, f2) = ready_back_lem t laws dq1 g sl r1 in
      let fuel = suc (int_sub (g back_spot) (g front_spot)) in
      let d = distance (g front_spot) (g back_spot) (length xs) h.0 h.1 h.2 in
      let (s, c, h', sl', v, k) =
        clear_elements_lem xs fuel dq2.tx g g sl r2.0 h (omega (arith, d)) in
      let s1 = laws.write s (spot_key front_spot) none in
      let v1 = write_spot t laws s g sl' front_spot none 0 v (inr (refl, refl)) (omega arith) in
      let v2 = write_spot t laws s1 _ sl' back_spot none 1 v1 (inr (refl, refl)) (omega arith) in
      let from = from_copies dq2.tx _ (g front_spot) _ (g back_spot) (f2 ∙ f1) b2 in
      (
        new_deque t (laws.write s1 (spot_key back_spot) none),
        after_ok _ e1 (
            after_ok _ e2 (
              after_ok _ (from ∙ c) (
                after_ok _ (laws.tx_delete_lem s (spot_key front_spot))
                  (after_ok _ (laws.tx_delete_lem s1 (spot_key back_spot)) refl)))),
        _,
        sl',
        (v2, (λ y. cc), (λ y. cc)),
        emptied g h' sl' k,
      )
