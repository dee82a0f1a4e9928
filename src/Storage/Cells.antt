-- ===== src/Storage/Cells.antt =====
-- Value states that hold a counter or a sum: a word, and zero where nothing is stored.
use octosql.Base.{ℕ, ◌≡◌, ap, ◌∙◌, Option, none, some, ok}
use octosql.Value.{Value, int}
use octosql.Storage.{StorageOps, StorageLaws, or_zero, found}

abbrev pub HoldsWord : (o : StorageOps) → o.Cell → ℕ → Type 0
HoldsWord o c w = or_zero (o.cell_get c) ≡ ok (int w)

module _ (o : StorageOps) (laws : StorageLaws o) where
  pub get-write : (c : o.Cell) (v : Option Value) → o.cell_get (laws.write c v) ≡ found v
  get-write c v = laws.cell_get_lem (laws.write c v) ∙ ap found (laws.content-write c v)

  pub written_word : (c : o.Cell) (w : ℕ) → HoldsWord o (laws.write c (some (int w))) w
  written_word c w = ap or_zero (get-write c (some (int w)))

  pub cleared_word : (c : o.Cell) → HoldsWord o (laws.write c none) 0
  cleared_word c = ap or_zero (get-write c none)

  pub empty_word : (c : o.Cell) → laws.content c ≡ none → HoldsWord o c 0
  empty_word c e = ap or_zero (laws.cell_get_lem c ∙ ap found e)
