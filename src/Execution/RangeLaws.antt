-- ===== src/Execution/RangeLaws.antt =====
-- Theorems about the stream of a range.
use octosql.Base.{
  ℕ, zero, suc, ◌+◌, ◌<◌, ◌≡◌, refl, true, false, List, [], ◌∷◌, Outcome, ok, err, ◌>>=◌, some,
  end_of_stream, arith, after_ok,
}
use octosql.Base.Int.{int_add, int_less, signed, pos_part, neg_part, sign_bit, word_mod}
use octosql.Value.{int, cons, nil}
use octosql.Storage.{StorageOps, StorageLaws}
use octosql.Execution.Records.{Record, new_record_from_slice}
use octosql.Execution.Range.{i_name, RangeStream, range_get, range_next}

-- The records of so many numbers from one on.
abbrev pub numbers : ℕ → ℕ → List Record
numbers a zero = []
numbers a (suc n) = new_record_from_slice (i_name ∷ []) (cons (int a) nil) ∷ numbers (int_add a 1) n

-- Whether so many more than an integer is an int64.
abbrev pub IsRoom : ℕ → ℕ → Type 0
IsRoom a n = pos_part (signed a) + n < sign_bit + neg_part (signed a)

less_later : (a n : ℕ) → a < word_mod → IsRoom a (suc n) → int_less a (int_add a (suc n)) ≡ true
less_later a n w h = ground arith

not_less : (a : ℕ) → a < word_mod → int_less a (int_add a 0) ≡ false
not_less a w = ground arith

IsRoom-int_add : (a n : ℕ) → a < word_mod → IsRoom a (suc n) → IsRoom (int_add a 1) n
IsRoom-int_add a n w h = ground arith

same_end : (a n : ℕ) → int_add (int_add a 1) n ≡ int_add a (suc n)
same_end a n = omega arith

in_range : (a : ℕ) → int_add a 1 < word_mod
in_range a = omega arith

module _ (o : StorageOps) where
  -- So many calls of `Next`.
  abbrev pub nexts : ℕ → RangeStream o → Outcome (List Record × RangeStream o)
  nexts zero s = ok ([], s)
  nexts (suc n) s = do (r, s') ← range_next o s; (rs, s'') ← nexts n s'; ok (r ∷ rs, s'')

  module _ (laws : StorageLaws o) where
    next_lem :
        (s : RangeStream o) (a n : ℕ)
        → laws.content s.current_index ≡ some (int a)
        → a < word_mod
        → IsRoom a (suc n)
        → s.end_exclusive ≡ int_add a (suc n)
        → range_next o s
          ≡ ok (
            new_record_from_slice (i_name ∷ []) (cons (int a) nil),
            record s { current_index = laws.write s.current_index (some (int (int_add a 1))) },
          )
    unfolding range_next
    next_lem s a n c w h e =
        rw
          (
            range_next,
            laws.cell_get_lem s.current_index,
            c,
            e,
            less_later a n w h,
            laws.cell_set_lem s.current_index (int (int_add a 1)),
          )
          refl

    nexts_lem :
        (n a : ℕ) (s : RangeStream o)
        → laws.content s.current_index ≡ some (int a)
        → a < word_mod
        → IsRoom a n
        → s.end_exclusive ≡ int_add a n
        → (s' : RangeStream o) × (nexts n s ≡ ok (numbers a n, s'))
          × (range_next o s' ≡ err end_of_stream)
    unfolding range_next
    nexts_lem zero a s c w h e =
        (s, refl, rw (range_next, laws.cell_get_lem s.current_index, c, e, not_less a w) refl)
    nexts_lem (suc n) a s c w h e =
        let (s', run, stop) =
          nexts_lem n (int_add a 1)
            (record s { current_index = laws.write s.current_index (some (int (int_add a 1))) })
            (laws.content-write s.current_index (some (int (int_add a 1)))) (in_range a)
            (IsRoom-int_add a n w h) (rw (same_end a n) e) in
        (s', after_ok _ (next_lem s a n c w h e) (after_ok _ run refl), stop)

    -- Over a store that works, the stream of a range from an int64 to the one that is so many more, both
    -- within an int64, whose cell may hold anything before: as many calls of `Next` yield the records of
    -- the numbers from the start on, the end not among them, and the next call yields the end of the
    -- stream.
    pub range_next-range_get :
        (cell : o.Cell) (a n : ℕ)
        → a < word_mod
        → IsRoom a n
        → (s s' : RangeStream o) × (range_get o (ok (int a)) (ok (int (int_add a n))) cell ≡ ok s)
          × (nexts n s ≡ ok (numbers a n, s'))
          × (range_next o s' ≡ err end_of_stream)
    unfolding range_get
    range_next-range_get cell a n w h =
        let s : RangeStream o = record {
          current_index = laws.write cell (some (int a));
          end_exclusive = int_add a n;
        } in
        let (s', run, stop) = nexts_lem n a s (laws.content-write cell (some (int a))) w h refl in
        (s, s', rw (laws.cell_set_lem cell (int a)) refl, run, stop)
