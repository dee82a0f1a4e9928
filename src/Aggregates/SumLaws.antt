-- ===== src/Aggregates/SumLaws.antt =====
-- Theorems about execution/aggregates/sum.go.
use octosql.Base.{
  ℕ, ◌+◌, ◌%◌, ◌<◌, ◌≡◌, refl, sym, List, [], ◌∷◌, none, some, ok, ◌==◌, arith, Bool-cases, inl,
  inr, ==_iff,
}
use mathlib.Core.Path.{subst}
use octosql.Base.Int.{int_add, int_sub, word_mod}
use octosql.Value.{int, get_type}
use octosql.Storage.{StorageOps, StorageLaws}
use octosql.Storage.Cells.{HoldsWord, written_word, cleared_word, empty_word}
use octosql.Aggregates.Counting.{Event, added, retracted, apply_event, run}
use octosql.Aggregates.Summing.{
  FloatOps, SumState, sum, sum_get_value, sum_add_value, sum_retract_value, active_sum, sum_plus,
  sum_minus, is_neutral_element, get_appropriate_neutral_element,
}

-- Events whose values are ints, given as words.
pub data IntEvent : Type 0 where
  int_added int_retracted : ℕ → IntEvent

abbrev pub event : IntEvent → Event
event (int_added w) = added (int w)
event (int_retracted w) = retracted (int w)

abbrev pub events : List IntEvent → List Event
events [] = []
events (e ∷ es) = event e ∷ events es

abbrev pub AllWords : List IntEvent → Type 0
AllWords [] = Unit
AllWords (int_added w ∷ es) = (w < word_mod) × AllWords es
AllWords (int_retracted w ∷ es) = (w < word_mod) × AllWords es

-- The sums of what came in and of what left, without wrapping.
abbrev pub total_in : List IntEvent → ℕ
total_in [] = 0
total_in (int_added w ∷ es) = w + total_in es
total_in (int_retracted w ∷ es) = total_in es

abbrev pub total_out : List IntEvent → ℕ
total_out [] = 0
total_out (int_added w ∷ es) = total_out es
total_out (int_retracted w ∷ es) = w + total_out es

abbrev total_after : ℕ → List IntEvent → ℕ
total_after t [] = t
total_after t (int_added w ∷ es) = total_after (int_add t w) es
total_after t (int_retracted w ∷ es) = total_after (int_sub t w) es

total_after_lem :
    (t : ℕ) (es : List IntEvent)
    → t < word_mod
    → AllWords es
    → (total_after t es < word_mod)
      × ((total_after t es + total_out es) % word_mod ≡ (t + total_in es) % word_mod)
total_after_lem t [] b a = (b, omega arith)
total_after_lem t (int_added w ∷ es) b (bw, a) =
    let (r, e) = total_after_lem (int_add t w) es (omega arith) a in (r, omega arith)
total_after_lem t (int_retracted w ∷ es) b (bw, a) =
    let (r, e) = total_after_lem (int_sub t w) es (omega arith) a in (r, omega arith)

active_int : (s n w : ℕ) → active_sum (int s) (int n) (int w) ≡ ok (int s)
unfolding active_sum is_neutral_element get_appropriate_neutral_element get_type
active_int s n w = ground arith

module _ (fl : FloatOps) (o : StorageOps) (laws : StorageLaws o) where
  abbrev HoldsSum : SumState fl o → ℕ → ℕ → Type 0
  HoldsSum s total n = HoldsWord o s.0 total × HoldsWord o s.1 n

  set_sum :
      (s : SumState fl o) (total n : ℕ)
      → HoldsSum (laws.write s.0 (some (int total)), laws.write s.1 (some (int n))) total n
  set_sum s total n = (written_word o laws s.0 total, written_word o laws s.1 n)

  clear_sum :
      (s : SumState fl o) (total n : ℕ)
      → n ≡ 0
      → HoldsSum (laws.write s.0 (some (int total)), laws.write s.1 none) total n
  clear_sum s total n z = (
    written_word o laws s.0 total,
    subst (λ k. HoldsWord o (laws.write s.1 none) k) (sym z) (cleared_word o laws s.1),
  )

  sum_step :
      (s : SumState fl o) (total n : ℕ) (e : IntEvent)
      → HoldsSum s total n
      → (s' : SumState fl o) × (n' : ℕ) × (apply_event (sum fl o) s (event e) ≡ ok s')
        × HoldsSum s' (total_after total (e ∷ [])) n'
  unfolding sum_add_value sum_retract_value sum_get_value sum_plus sum_minus get_type
  sum_step s total n (int_added w) (h, k) = rw h (
      rw k (
        rw (active_int total n w) (
          rw (laws.cell_set_lem s.0 (int (int_add total w))) (
            rw (laws.cell_set_lem s.1 (int (int_add n 1))) (_, int_add n 1, refl, set_sum s _ _)))))
  sum_step s total n (int_retracted w) (h, k) = rw h (
      rw k (
        rw (active_int total n w) (
          rw (laws.cell_set_lem s.0 (int (int_sub total w))) (elim (Bool-cases (int_sub n 1 == 0)) [
            | inl z ↦ rw z (
                rw (laws.cell_clear_lem s.1)
                  (_, int_sub n 1, refl, clear_sum s _ _ ((==_iff (int_sub n 1) 0).0 z)))
            | inr z ↦ rw z (
                rw (laws.cell_set_lem s.1 (int (int_sub n 1)))
                  (_, int_sub n 1, refl, set_sum s _ _))
          ]))))

  sum-run :
      (es : List IntEvent) (s : SumState fl o) (total n : ℕ)
      → HoldsSum s total n
      → (s' : SumState fl o) × (run (sum fl o) s (events es) ≡ ok s')
        × HoldsWord o s'.0 (total_after total es)
  unfolding run
  sum-run [] s total n (h, k) = (s, refl, h)
  sum-run (int_added w ∷ es) s total n h =
      let (s', n', r, h') = sum_step s total n (int_added w) h in rw r (sum-run es s' _ n' h')
  sum-run (int_retracted w ∷ es) s total n h =
      let (s', n', r, h') = sum_step s total n (int_retracted w) h in rw r (sum-run es s' _ n' h')

  -- SUM of ints over a store that works: from an empty group, any events that carry 64-bit words
  -- are taken without an error, and the sum is the word that, with what left added, equals what
  -- came in modulo 2^64.
  pub sum_get_value-run :
      (es : List IntEvent) (s : SumState fl o)
      → AllWords es
      → laws.content s.0 ≡ none
      → laws.content s.1 ≡ none
      → (s' : SumState fl o) × (w : ℕ) × (run (sum fl o) s (events es) ≡ ok s')
        × (sum_get_value fl o s' ≡ ok (int w))
        × (w < word_mod)
        × ((w + total_out es) % word_mod ≡ total_in es % word_mod)
  unfolding sum_get_value
  sum_get_value-run es s a h k =
      let (s', r, h') = sum-run es s 0 0 (empty_word o laws s.0 h, empty_word o laws s.1 k) in
      let (b, e) = total_after_lem 0 es (omega arith) a in
      (s', total_after 0 es, r, h', b, omega arith)
