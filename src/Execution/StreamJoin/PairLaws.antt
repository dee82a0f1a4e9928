-- ===== src/Execution/StreamJoin/PairLaws.antt =====
-- execution/stream_join.go: which pairs of records a trigger sends, apart from their IDs.
use octosql.Base.{
  ℕ, ◌+◌, Bool, true, false, ◌||◌, List, [], ◌∷◌, ◌++◌, Bytes, ◌≡◌, refl, arith, length,
}
use octosql.Base.Int.{int_add}
use octosql.Physical.Names.{new_variable_name}
use octosql.Execution.Records.{Record, record_value, with_id}
use octosql.Execution.OrderBy.Counted.{one}
use octosql.Execution.StreamJoin.Pairs.{
  JoinType, JoinLibraries, merge_records, pairs_with, create_pairs_of_records, rename_records,
  renamed_if, add_left_records, add_right_records, records_to_trigger,
}

-- How many records pass a test.
abbrev pub count_where : (Record → Bool) → List Record → ℕ
count_where test [] = 0
count_where test (r ∷ rs) = one (test r) + count_where test rs

-- The records of a list that are counted under a condition.
abbrev pub count_if : Bool → (Record → Bool) → List Record → ℕ
count_if true test rs = count_where test rs
count_if false test rs = 0

-- A test that does not look at the ID.
abbrev pub IgnoresId : (Record → Bool) → Type 0
IgnoresId test = (i : Bytes) (r : Record) → test (with_id i r) ≡ test r

count_where-append :
    (test : Record → Bool) (xs ys : List Record)
    → count_where test (xs ++ ys) ≡ count_where test xs + count_where test ys
count_where-append test [] ys = omega arith
count_where-append test (x ∷ xs) ys = omega (arith, count_where-append test xs ys)

count_where-parts :
    (test : Record → Bool) (as' bs cs ds : List Record) {a b c d : ℕ}
    → count_where test as' ≡ a
    → count_where test bs ≡ b
    → count_where test cs ≡ c
    → count_where test ds ≡ d
    → count_where test (as' ++ (bs ++ (cs ++ ds))) ≡ a + (b + (c + d))
count_where-parts test as' bs cs ds ea eb ec ed =
    rw
      (
        count_where-append test as' (bs ++ (cs ++ ds)),
        count_where-append test bs (cs ++ ds),
        count_where-append test cs ds,
        ea,
        eb,
        ec,
        ed,
      )
      refl

module _ (lib : JoinLibraries) (event_field : Bytes) (test : Record → Bool)
    (ignores : IgnoresId test) where
  -- A pair, with an ID of no meaning.
  abbrev pair : Record → Record → Record
  unfolding merge_records new_variable_name record_value
  pair l r = merge_records lib event_field l r [] (l.metadata.undo || r.metadata.undo)

  pair-id :
      (l r : Record) (i : Bytes)
      → test (merge_records lib event_field l r i (l.metadata.undo || r.metadata.undo))
        ≡ test (pair l r)
  unfolding merge_records new_variable_name record_value
  pair-id l r i = ignores i (pair l r)

  -- The pairs of a left record, and of all.
  abbrev row : Record → List Record → ℕ
  row l [] = 0
  row l (r ∷ rs) = one (test (pair l r)) + row l rs

  abbrev table : List Record → List Record → ℕ
  table [] rs = 0
  table (l ∷ ls) rs = row l rs + table ls rs

  pairs_with-row :
      (l : Record) (rs : List Record) (n : ℕ)
      → count_where test (pairs_with lib event_field l rs n) ≡ row l rs
  unfolding pairs_with
  pairs_with-row l [] n = refl
  pairs_with-row l (r ∷ rs) n =
      rw (pair-id l r (lib.record_id_with_offset n))
        (omega (arith, pairs_with-row l rs (int_add n 1)))

  create_pairs_of_records-table :
      (ls rs : List Record) (n : ℕ)
      → count_where test (create_pairs_of_records lib event_field ls rs n) ≡ table ls rs
  unfolding create_pairs_of_records
  create_pairs_of_records-table [] rs n = refl
  create_pairs_of_records-table (l ∷ ls) rs n =
      let pairs = pairs_with lib event_field l rs n in
      let next = int_add n (length pairs) in
      rw (count_where-append test pairs (create_pairs_of_records lib event_field ls rs next))
        (omega (arith, pairs_with-row l rs n, create_pairs_of_records-table ls rs next))

  row-append : (l : Record) (rs qs : List Record) → row l (rs ++ qs) ≡ row l rs + row l qs
  row-append l [] qs = omega arith
  row-append l (r ∷ rs) qs = omega (arith, row-append l rs qs)

  table-append_right : (ls rs qs : List Record) → table ls (rs ++ qs) ≡ table ls rs + table ls qs
  table-append_right [] rs qs = omega arith
  table-append_right (l ∷ ls) rs qs = omega (arith, row-append l rs qs, table-append_right ls rs qs)

  table-append_left : (ls ks rs : List Record) → table (ls ++ ks) rs ≡ table ls rs + table ks rs
  table-append_left [] ks rs = omega arith
  table-append_left (l ∷ ls) ks rs = omega (arith, table-append_left ls ks rs)

  rename_records-count :
      (rs : List Record) (n : ℕ) → count_where test (rename_records lib rs n) ≡ count_where test rs
  unfolding rename_records
  rename_records-count [] n = refl
  rename_records-count (r ∷ rs) n =
      rw (ignores (lib.record_id_with_offset n) r)
        (omega (arith, rename_records-count rs (int_add n 1)))

  renamed_if-count :
      (b : Bool) (rs : List Record) (n : ℕ)
      → count_where test (renamed_if lib b rs n) ≡ count_if b test rs
  unfolding renamed_if
  renamed_if-count true rs n = rename_records-count rs n
  renamed_if-count false rs n = refl

  -- Of the records that pass a test which does not look at the ID, a trigger sends as many as there are
  -- among the pairs of all left with all right records, less those among the pairs of the old ones; and
  -- in a LEFT or an OUTER join the new left records, in an OUTER join the new right records, by
  -- themselves.
  pub records_to_trigger-pairs :
      (join_type : JoinType) (old_left old_right new_left new_right : List Record) (offset : ℕ)
      → count_where test (
            records_to_trigger lib event_field join_type old_left old_right new_left new_right
              offset)
          + count_where test (create_pairs_of_records lib event_field old_left old_right 0)
        ≡ count_where test (
            create_pairs_of_records lib event_field
              (old_left ++ new_left)
              (old_right ++ new_right)
              0)
          + count_if (add_left_records join_type) test new_left
          + count_if (add_right_records join_type) test new_right
  unfolding records_to_trigger
  records_to_trigger-pairs join_type ol orr nl nr offset =
      let lefts = add_left_records join_type in
      let rights = add_right_records join_type in
      rw
        (
          count_where-parts test _ _ _ _ (create_pairs_of_records-table nl (orr ++ nr) offset)
              (create_pairs_of_records-table ol nr _) (renamed_if-count lefts nl _)
              (renamed_if-count rights nr _),
          create_pairs_of_records-table ol orr 0,
          create_pairs_of_records-table (ol ++ nl) (orr ++ nr) 0,
          table-append_left ol nl (orr ++ nr),
          table-append_right ol orr nr,
        )
        (omega arith)
