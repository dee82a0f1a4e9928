-- ===== src/Triggers/WatermarkLaws.antt =====
-- Theorems about the watermark trigger.
use octosql.Base.{ℕ, ◌≡◌, Bool, true, false, List, [], ◌∷◌, none, some, if◌then◌else◌, Option}
use octosql.Value.{Value}
use octosql.Storage.{StorageOps, StorageLaws, IteratorOps}
use octosql.Triggers.TimeSortedKeys.{TimeSortedKeys}
use octosql.Triggers.TimeTriggers.{Time, is_before, as_bool}
use octosql.Triggers.TimeTriggersLaws.{listed}

-- Whether the first key's time is not after a time.
abbrev is_first_due : Time → List (Value × Time) → Bool
is_first_due w [] = false
is_first_due w ((key, t) ∷ rest) = if is_before w t then false else true

-- The first entry.
abbrev head : List (Value × Time) → Option (Value × Time)
head [] = none
head (e ∷ es) = some e

module _ (valid_time : ℕ → ℕ → Bool) (o : StorageOps) (it : IteratorOps o)
    (laws : StorageLaws o) where
  -- The iterator of a map that holds no key beyond those of a map yields keys with their times.
  abbrev pub Iterates : o.Map → Type 0
  Iterates m =
      (m' : o.Map)
      → ((j : Value) → laws.lookup m j ≡ none → laws.lookup m' j ≡ none)
      → (es : List (Value × Time)) × (it.map_iterate m' false ≡ listed es)

  -- What a cell for a flag says.
  abbrev is_set : Option Value → Bool
  is_set none = false
  is_set (some v) = as_bool valid_time o it v
