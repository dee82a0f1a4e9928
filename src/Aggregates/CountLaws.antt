-- ===== src/Aggregates/CountLaws.antt =====
-- Theorems about execution/aggregates/count.go.
use octosql.Base.{
  ==_iff, ℕ, ◌+◌, ◌-◌, ◌%◌, ap, ◌∙◌, ◌<◌, ◌≤◌, List, [], ◌∷◌, ◌≡◌, refl, sym, none, some, length,
  ok, ◌==◌, if◌then◌else◌, arith, Bool-cases, inl, inr,
}
use mathlib.Core.Path.{subst}
use octosql.Base.Int.{int_add, int_sub, int_less, word_mod, sign_bit}
use octosql.Value.{int}
use octosql.Storage.{StorageOps, StorageLaws, or_zero, found}
use octosql.Storage.Cells.{HoldsWord, written_word, cleared_word}
use octosql.Aggregates.Counting.{
  Event, added, retracted, apply_event, run, count_add_value, count_retract_value, count_get_value,
  count,
}

-- How many values came in, and how many left.
abbrev pub additions : List Event → ℕ
additions [] = 0
additions (added v ∷ es) = 1 + additions es
additions (retracted v ∷ es) = additions es

abbrev pub retractions : List Event → ℕ
retractions [] = 0
retractions (added v ∷ es) = retractions es
retractions (retracted v ∷ es) = 1 + retractions es

pub events_length : (es : List Event) → additions es + retractions es ≡ length es
events_length [] = refl
events_length (added v ∷ es) = ground (arith, events_length es)
events_length (retracted v ∷ es) = ground (arith, events_length es)

-- The word that the counter holds after the events, from the word `w`.
abbrev word_after : ℕ → List Event → ℕ
word_after w [] = w
word_after w (added v ∷ es) = word_after (int_add w 1) es
word_after w (retracted v ∷ es) = word_after (int_sub w 1) es

word_after_lem :
    (w : ℕ) (es : List Event)
    → w < word_mod
    → retractions es ≤ word_mod
    → word_after w es ≡ (w + additions es + (word_mod - retractions es)) % word_mod
word_after_lem w [] b r = omega arith
word_after_lem w (added v ∷ es) b r = ground (arith, word_after_lem (int_add w 1) es)
word_after_lem w (retracted v ∷ es) b r = ground (arith, word_after_lem (int_sub w 1) es)

module _ (o : StorageOps) (laws : StorageLaws o) where
  count_step :
      (c : o.Cell) (w : ℕ) (e : Event)
      → HoldsWord o c w
      → (c' : o.Cell) × (apply_event (count o) c e ≡ ok c') × HoldsWord o c' (word_after w (e ∷ []))
  unfolding count_add_value count_retract_value
  count_step c w (added v) h = rw h (
      rw (laws.cell_set_lem c (int (int_add w 1)))
        (laws.write c (some (int (int_add w 1))), refl, written_word o laws c _))
  count_step c w (retracted v) h = rw h (elim (Bool-cases (int_sub w 1 == 0)) [
    | inl z ↦ rw z (
        rw (laws.cell_clear_lem c) (
          laws.write c none,
          refl,
          subst (λ n. HoldsWord o (laws.write c none) n) (sym ((==_iff (int_sub w 1) 0).0 z))
              (cleared_word o laws c),
        ))
    | inr z ↦ rw z (
        rw (laws.cell_set_lem c (int (int_sub w 1)))
          (laws.write c (some (int (int_sub w 1))), refl, written_word o laws c _))
  ])

  count-run :
      (es : List Event) (c : o.Cell) (w : ℕ)
      → HoldsWord o c w
      → (c' : o.Cell) × (run (count o) c es ≡ ok c') × HoldsWord o c' (word_after w es)
  unfolding run
  count-run [] c w h = (c, refl, h)
  count-run (added v ∷ es) c w h =
      let (c', r, h') = count_step c w (added v) h in rw r (count-run es c' _ h')
  count-run (retracted v ∷ es) c w h =
      let (c', r, h') = count_step c w (retracted v) h in rw r (count-run es c' _ h')

  clamped :
      (a r : ℕ)
      → a + r < sign_bit
      → (if int_less ((0 + a + (word_mod - r)) % word_mod) 0
          then int 0
          else int ((0 + a + (word_mod - r)) % word_mod))
        ≡ int (a - r)
  clamped a r b = ground arith

  -- COUNT over a store that works: from an empty group, after fewer than 2^63 events in any order,
  -- no operation fails, and the value is the number of additions less the number of retractions, or
  -- zero where more values left than came in.
  pub count_get_value-run :
      (es : List Event) (c : o.Cell)
      → length es < sign_bit
      → laws.content c ≡ none
      → (c' : o.Cell) × (run (count o) c es ≡ ok c')
        × (count_get_value o c' ≡ ok (int (additions es - retractions es)))
  unfolding count_get_value
  count_get_value-run es c b h =
      let n = events_length es in
      let (c', r, h') = count-run es c 0 (ap or_zero (laws.cell_get_lem c ∙ ap found h)) in
      (
        c',
        r,
        rw h' (
            rw (word_after_lem 0 es (omega arith) (omega arith))
              (ap ok (clamped (additions es) (retractions es) (omega arith)))),
      )
