-- ===== src/Aggregates/KeyLaws.antt =====
-- Theorems about execution/aggregates/key.go.
use octosql.Base.{
  ℕ, ◌+◌, ◌-◌, ◌%◌, ◌<◌, ◌≡◌, refl, sym, ap, ◌∙◌, false, List, [], ◌∷◌, none, some, length, Outcome,
  ok, err, panic, ◌==◌, ltb, if◌then◌else◌, arith, Bool-cases, inl, inr, ==_iff, not_found,
  ok-injective,
}
use mathlib.Core.Path.{subst}
use octosql.Base.Int.{int_add, int_sub, int_less, word_mod, sign_bit}
use octosql.Value.{Value, int, zero_value}
use octosql.Storage.{StorageOps, StorageLaws, or_zero}
use octosql.Storage.Cells.{HoldsWord, written_word, cleared_word, empty_word, get-write}
use octosql.Aggregates.Counting.{Event, added, retracted, run, as_int}
use octosql.Aggregates.CountLaws.{additions, retractions, events_length}
use octosql.Aggregates.Keys.{
  KeyState, key_add_value, key_retract_value, key_get_value, key_aggregate,
}

-- Every event of the group carries its key.
abbrev pub AllCarry : Value → List Event → Type 0
AllCarry v [] = Unit
AllCarry v (added w ∷ es) = (w ≡ v) × AllCarry v es
AllCarry v (retracted w ∷ es) = (w ≡ v) × AllCarry v es

-- The counter's word after `a` additions and `r` retractions.
abbrev net : ℕ → ℕ → ℕ
net a r = (a + (word_mod - r)) % word_mod

above : (a r : ℕ) → 1 + a + r < sign_bit → r < 1 + a → (int_add (net a r) 1 == 1) ≡ false → r < a
above a r b l z = ground arith

emptied : (a r : ℕ) → 1 + a + r < sign_bit → 1 + r < a → int_sub (net a r) 1 ≡ 0 → ⊥
emptied a r b l z = omega arith

positive : (a r : ℕ) → a + r < sign_bit → int_less 0 (net a r) ≡ ltb r a
positive a r b = ground arith

key_when :
    (key : Outcome Value) (v : Value) (r a : ℕ)
    → (r < a → key ≡ ok v)
    → (if ltb r a then key else ok zero_value) ≡ ok (if ltb r a then v else zero_value)
key_when key v r a h = ground arith

if_eq :
    (es : List Event) (v : Value)
    → (if ltb (0 + retractions es) (0 + additions es) then v else zero_value)
      ≡ (if ltb (retractions es) (additions es) then v else zero_value)
if_eq es v = ground arith

module _ (o : StorageOps) (laws : StorageLaws o) where
  abbrev HoldsKey : Value → KeyState o → ℕ → ℕ → Type 0
  HoldsKey v s a r = HoldsWord o s.1 (net a r) × (r < a → o.cell_get s.0 ≡ ok v)

  holds_word : (c : o.Cell) (n m : ℕ) → n ≡ m → HoldsWord o c n → HoldsWord o c m
  holds_word c n m e h = subst (λ k. HoldsWord o c k) e h

  key_added :
      (v : Value) (s : KeyState o) (a r : ℕ)
      → HoldsKey v s a r
      → 1 + a + r < sign_bit
      → (s' : KeyState o) × (key_add_value o s v ≡ ok s') × HoldsKey v s' (1 + a) r
  unfolding key_add_value
  key_added v s a r (h, k) b =
      let n = int_add (net a r) 1 in
      let e : n ≡ net (1 + a) r = omega arith in
      let w = holds_word (laws.write s.1 (some (int n))) n _ e (written_word o laws s.1 n) in
      rw h (
        rw (laws.cell_set_lem s.1 (int n)) (elim (Bool-cases (n == 1)) [
          | inl z ↦ rw z (
              rw (laws.cell_set_lem s.0 v) (
                (laws.write s.0 (some v), laws.write s.1 (some (int n))),
                refl,
                (w, λ _. get-write o laws s.0 (some v)),
              ))
          | inr z ↦ rw z ((s.0, laws.write s.1 (some (int n))), refl, (w, λ l. k (above a r b l z)))
        ]))

  key_retracted :
      (v : Value) (s : KeyState o) (a r : ℕ)
      → HoldsKey v s a r
      → 1 + a + r < sign_bit
      → (s' : KeyState o) × (key_retract_value o s v ≡ ok s') × HoldsKey v s' a (1 + r)
  unfolding key_retract_value
  key_retracted v s a r (h, k) b =
      let n = int_sub (net a r) 1 in
      let e : n ≡ net a (1 + r) = omega arith in
      rw h (elim (Bool-cases (n == 0)) [
        | inl z ↦ rw z (
            rw (laws.cell_clear_lem s.0) (
              rw (laws.cell_clear_lem s.1) (
                (laws.write s.0 none, laws.write s.1 none),
                refl,
                (
                  subst (λ m. HoldsWord o (laws.write s.1 none) m) (sym ((==_iff n 0).0 z) ∙ e)
                      (cleared_word o laws s.1),
                  λ l. absurd (emptied a r b l ((==_iff n 0).0 z)),
                ),
              )))
        | inr z ↦ rw z (
            rw (laws.cell_set_lem s.1 (int n)) (
              (s.0, laws.write s.1 (some (int n))),
              refl,
              (
                holds_word (laws.write s.1 (some (int n))) n _ e (written_word o laws s.1 n),
                λ l. k (omega arith),
              ),
            ))
      ])

  counted :
      (r : Outcome Value) (key : Outcome Value) (w : ℕ)
      → or_zero r ≡ ok (int w)
      → (elim r [
        | ok current ↦ if int_less 0 (as_int current) then key else ok zero_value
        | err e ↦ ok zero_value
        | panic ↦ panic
      ])
        ≡ (if int_less 0 w then key else ok zero_value)
  counted (ok u) key w h = rw (ok-injective h) refl
  counted (err not_found) key w h = rw (sym (ap as_int (ok-injective h))) refl
  counted (err _) key w h = cc
  counted panic key w h = cc

  read_key :
      (key n : o.Cell) (w : ℕ)
      → HoldsWord o n w
      → key_get_value o (key, n) ≡ (if int_less 0 w then o.cell_get key else ok zero_value)
  unfolding key_get_value
  read_key key n w h = counted (o.cell_get n) (o.cell_get key) w h

  cast_key :
      (v : Value) (s : KeyState o) (a b r q : ℕ)
      → a ≡ b
      → r ≡ q
      → HoldsKey v s a r
      → HoldsKey v s b q
  cast_key v s a b r q e f h = subst (λ n. HoldsKey v s n q) e (subst (λ n. HoldsKey v s a n) f h)

  key_run :
      (v : Value) (es : List Event) (s : KeyState o) (a r : ℕ)
      → AllCarry v es
      → HoldsKey v s a r
      → a + r + length es < sign_bit
      → (s' : KeyState o) × (run (key_aggregate o) s es ≡ ok s')
        × HoldsKey v s' (a + additions es) (r + retractions es)
  unfolding run
  key_run v [] s a r c h b = (s, refl, cast_key v s a _ r _ (omega arith) (omega arith) h)
  key_run v (added w ∷ es) s a r (e, c) h b =
      let (s', q, h') = key_added v s a r h (omega arith) in
      let (t, p, i) = key_run v es s' (1 + a) r c h' (omega arith) in
      (t, rw e (rw q p), cast_key v t _ _ _ _ (omega arith) refl i)
  key_run v (retracted w ∷ es) s a r (e, c) h b =
      let (s', q, h') = key_retracted v s a r h (omega arith) in
      let (t, p, i) = key_run v es s' a (1 + r) c h' (omega arith) in
      (t, rw e (rw q p), cast_key v t _ _ _ _ refl (omega arith) i)

  -- KEY over a store that works: from an empty group, after fewer than 2^63 events that all carry
  -- the key `v`, in any order, no operation fails, and the value is `v` where more copies came in
  -- than left, and the zero value otherwise.
  pub key_get_value-run :
      (v : Value) (es : List Event) (s : KeyState o)
      → AllCarry v es
      → length es < sign_bit
      → laws.content s.0 ≡ none
      → laws.content s.1 ≡ none
      → (s' : KeyState o) × (run (key_aggregate o) s es ≡ ok s')
        × (key_get_value o s' ≡ ok (if ltb (retractions es) (additions es) then v else zero_value))
  key_get_value-run v es s c b h k =
      let n = events_length es in
      let zero : HoldsKey v s 0 0 = (empty_word o laws s.1 k, λ l. absurd (omega arith)) in
      let (s', r, (w, key)) = key_run v es s 0 0 c zero (omega arith) in
      (
        s',
        r,
        read_key s'.0 s'.1 _ w
            ∙ rw (positive (0 + additions es) (0 + retractions es) (omega arith)) (
                key_when (o.cell_get s'.0) v (0 + retractions es) (0 + additions es) key
                ∙ ap ok (if_eq es v)),
      )
