-- ===== src/Execution/Range.antt =====
-- execution/tvf/range.go: the stream of the numbers from a start to an end.
use octosql.Base.{
  ℕ, [], ◌∷◌, Bytes, Outcome, ok, err, ◌>>=◌, type_mismatch, end_of_stream, if◌then◌else◌,
}
use octosql.Base.Int.{int_add, int_less}
use octosql.Value.{Value, int, cons, nil}
use octosql.Aggregates.{as_int}
use octosql.Storage.{StorageOps}
use octosql.Execution.Records.{Record, new_record_from_slice}

-- The name of the field, `i`.
abbrev pub i_name : Bytes
i_name = 105 ∷ []

-- The check of the type of an end point.
abbrev pub expect_int : Value → Outcome ℕ
expect_int (int w) = ok w
expect_int v = err type_mismatch

module _ (o : StorageOps) where
  pub record RangeStream : Type 0 where
    pub current_index : o.Cell
    pub end_exclusive : ℕ

  -- `Get`, with what the expressions of the end points evaluate to.
  unfoldable pub range_get : Outcome Value → Outcome Value → o.Cell → Outcome RangeStream
  range_get start stop index = do
    first ← start
    _ ← expect_int first
    last ← stop
    end ← expect_int last
    c ← o.cell_set index first
    ok (record { current_index = c; end_exclusive = end })

  unfoldable pub range_next : RangeStream → Outcome (Record × RangeStream)
  range_next s = do
    current ← o.cell_get s.current_index
    let next = int (int_add (as_int current) 1)
    if int_less (as_int current) s.end_exclusive
        then (do
          c ← o.cell_set s.current_index next
          ok (
            new_record_from_slice (i_name ∷ []) (cons current nil),
            record s { current_index = c },
          ))
        else err end_of_stream
