-- ===== src/Execution/StreamJoin/Reading.antt =====
-- execution/stream_join.go: the records that are read from a set.
use octosql.Base.{
  ℕ, ◌+◌, Bool, true, false, not, ◌&&◌, List, [], ◌∷◌, ok, ◌≡◌, refl, arith, after_ok,
}
use octosql.Value.{Value}
use octosql.Execution.Records.{Record}
use octosql.Execution.OrderBy.Counted.{one}
use octosql.Execution.StreamJoin.Pairs.{JoinLibraries, value_to_record, read_records}
use octosql.Execution.StreamJoin.Sets.{All, occurrences}
use octosql.Execution.StreamJoin.Shapes.{
  Shape, encode, same_shape, encode-plain, encode-undone, Normal, record_from,
  value_to_record-encode,
}

-- Shapes with whether they are retracted.
abbrev pub Changes : Type 0
Changes = List (Shape × Bool)

-- How often a shape comes as a record, and as a retraction.
abbrev pub additions : Shape → Changes → ℕ
additions y [] = 0
additions y ((x, b) ∷ xs) = one (same_shape x y && not b) + additions y xs

abbrev pub retractions : Shape → Changes → ℕ
retractions y [] = 0
retractions y ((x, b) ∷ xs) = one (same_shape x y && b) + retractions y xs

abbrev pub AllShapes : (Shape → Type 0) → Changes → Type 0
AllShapes p [] = Unit
AllShapes p ((x, b) ∷ xs) = p x × AllShapes p xs

abbrev pub IsEncoded : (Shape → Type 0) → Value → Type 0
IsEncoded p v = (x : Shape) × (b : Bool) × (v ≡ encode x b) × p x

module _ (lib : JoinLibraries) where
  abbrev pub records : Changes → List Record
  records [] = []
  records ((x, b) ∷ xs) = record_from lib x b ∷ records xs

  read_records-step :
      (v : Value) (vs : List Value) {r : Record} {rs : List Record}
      → value_to_record lib v ≡ ok r
      → read_records lib vs ≡ ok rs
      → read_records lib (v ∷ vs) ≡ ok (r ∷ rs)
  unfolding read_records
  read_records-step v vs er ers = after_ok _ er (after_ok _ ers refl)

  module _ (p : Shape → Type 0) (normal : (x : Shape) → p x → Normal lib x) where
    pub read_records-encoded :
        (vs : List Value)
        → All (IsEncoded p) vs
        → (xs : Changes) × (read_records lib vs ≡ ok (records xs))
          × AllShapes p xs
          × ((y : Shape) → additions y xs ≡ occurrences (encode y false) vs)
          × ((y : Shape) → retractions y xs ≡ occurrences (encode y true) vs)
    unfolding read_records
    read_records-encoded [] a = ([], refl, tt, (λ y. refl), (λ y. refl))
    read_records-encoded (v ∷ vs) ((x, b, e, px), a) =
        let (xs, er, ps, plain, undone) = read_records-encoded vs a in
        (
          (x, b) ∷ xs,
          read_records-step v vs (rw e (value_to_record-encode lib x b (normal x px))) er,
          (px, ps),
          (λ y. rw (e, encode-plain x y b) (omega (arith, plain y))),
          (λ y. rw (e, encode-undone x y b) (omega (arith, undone y))),
        )
