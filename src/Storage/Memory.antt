-- ===== src/Storage/Memory.antt =====
-- A storage held in memory: it meets the laws, so that the theorems about clients can be applied.
use octosql.Base.{Option, none, some, ok, refl, if◌then◌else◌}
use octosql.Value.{Value, value_equal}
use octosql.Storage.{StorageOps, StorageLaws, found}

abbrev pub memory : StorageOps
memory = record {
  Cell = Option Value;
  cell_get = found;
  cell_set = λ c v. ok (some v);
  cell_clear = λ c. ok none;
  Map = Value → Option Value;
  map_get = λ m k. found (m k);
  map_set = λ m k v. ok (λ j. if value_equal k j then some v else m j);
  map_delete = λ m k. ok (λ j. if value_equal k j then none else m j);
}

abbrev pub memory_laws : StorageLaws memory
memory_laws = record {
  content = λ c. c;
  write = λ c v. v;
  cell_get_lem = λ c. refl;
  cell_set_lem = λ c v. refl;
  cell_clear_lem = λ c. refl;
  content-write = λ c v. refl;
  lookup = λ m k. m k;
  put = λ m k v j. if value_equal k j then v else m j;
  map_get_lem = λ m k. refl;
  map_set_lem = λ m k v. refl;
  map_delete_lem = λ m k. refl;
  lookup-put = λ m k v j. refl;
}
