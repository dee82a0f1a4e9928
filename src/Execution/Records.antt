-- ===== src/Execution/Records.antt =====
-- execution/record.go: records, their metadata, and the values of their fields.
use octosql.Base.{
  Outcome, ok, panic, ◌>>=◌, ◌≡◌, refl, Bool-cases, inl, inr, after_ok, Bool, false, List, [], ◌∷◌,
  Option, none, some, Bytes, bytes_equal, if◌then◌else◌,
}
use octosql.Value.{Value, null, string, bool, Values, nil, cons, Fields, no_fields, field}
use octosql.Physical.Names.{variable_source, variable_name, new_variable_name}

pub record Metadata : Type 0 where
  pub record_id : Option Bytes
  pub undo : Bool
  pub event_time_field : Bytes

pub record Record : Type 0 where
  pub field_names : List Bytes
  pub record_data : Values
  pub metadata : Metadata

abbrev pub no_metadata : Metadata
no_metadata = record { record_id = none; undo = false; event_time_field = [] }

-- `NewRecordFromSlice` without options, and the options.
abbrev pub new_record_from_slice : List Bytes → Values → Record
new_record_from_slice fields vs = record {
  field_names = fields;
  record_data = vs;
  metadata = no_metadata;
}

abbrev pub with_undo : Bool → Record → Record
with_undo b r = record r { metadata = record r.metadata { undo = b } }

abbrev pub with_event_time_field : Bytes → Record → Record
with_event_time_field f r = record r { metadata = record r.metadata { event_time_field = f } }

abbrev pub with_id : Bytes → Record → Record
with_id i r = record r { metadata = record r.metadata { record_id = some i } }

abbrev or_empty : Option Bytes → Bytes
or_empty none = []
or_empty (some b) = b

-- `sys`, and the names of the fields of the system.
abbrev system_source : Bytes
system_source = 115 ∷ 121 ∷ 115 ∷ []

abbrev id_name : Bytes
id_name = 105 ∷ 100 ∷ []

abbrev undo_name : Bytes
undo_name = 117 ∷ 110 ∷ 100 ∷ 111 ∷ []

abbrev event_time_field_name : Bytes
event_time_field_name =
    101 ∷ 118 ∷ 101 ∷ 110 ∷ 116 ∷ 95 ∷ 116 ∷ 105 ∷ 109 ∷ 101 ∷ 95 ∷ 102 ∷ 105 ∷ 101 ∷ 108 ∷ 100 ∷ []

-- The loop of `Value`: the first field of the name; where the data have none for it, a panic.
abbrev pub find_field : List Bytes → Values → Bytes → Outcome Value
find_field [] vs name = ok null
find_field (f ∷ fs) nil name =
    let rest = find_field fs nil name in if bytes_equal f name then panic else rest
find_field (f ∷ fs) (cons v vs) name =
    let rest = find_field fs vs name in if bytes_equal f name then ok v else rest

abbrev system_value : (Bytes → Bytes) → Record → Bytes → Value
system_value to_lower r name =
    if bytes_equal name id_name
    then string (or_empty r.metadata.record_id)
    else (if bytes_equal name undo_name
        then bool r.metadata.undo
        else (if bytes_equal name event_time_field_name
            then string (new_variable_name to_lower r.metadata.event_time_field)
            else null))

unfoldable pub record_value : (Bytes → Bytes) → Record → Bytes → Outcome Value
unfolding variable_source variable_name new_variable_name
record_value to_lower r name =
    if bytes_equal (variable_source name) system_source
    then ok (system_value to_lower r (variable_name name))
    else find_field r.field_names r.record_data name

-- An assignment to a Go map.
abbrev pub assign : Fields → Bytes → Value → Fields
assign no_fields k v = field k v no_fields
assign (field j w fs) k v = if bytes_equal j k then field k v fs else field j w (assign fs k v)

-- The object of all fields, which is counted and grouped for a star.
unfoldable pub all_fields : (Bytes → Bytes) → Record → List Bytes → Fields → Outcome Fields
unfolding record_value new_variable_name
all_fields to_lower r [] acc = ok acc
all_fields to_lower r (f ∷ fs) acc = do
  value ← record_value to_lower r (new_variable_name to_lower f)
  all_fields to_lower r fs (assign acc (new_variable_name to_lower f) value)

-- Every name has a value.
abbrev pub IsFilled : List Bytes → Values → Type 0
IsFilled [] vs = Unit
IsFilled (f ∷ fs) nil = ⊥
IsFilled (f ∷ fs) (cons v vs) = IsFilled fs vs

find_field_works :
    (fs : List Bytes) (vs : Values) (name : Bytes)
    → IsFilled fs vs
    → (v : Value) × (find_field fs vs name ≡ ok v)
find_field_works [] vs name h = (null, refl)
find_field_works (f ∷ fs) nil name h = absurd h
find_field_works (f ∷ fs) (cons v vs) name h = elim (Bool-cases (bytes_equal f name)) [
  | inl e ↦ rw e (v, refl)
  | inr e ↦ rw e (find_field_works fs vs name h)
]

pub record_value_works :
    (to_lower : Bytes → Bytes) (r : Record) (name : Bytes)
    → IsFilled r.field_names r.record_data
    → (v : Value) × (record_value to_lower r name ≡ ok v)
unfolding record_value
record_value_works to_lower r name h =
    elim (Bool-cases (bytes_equal (variable_source name) system_source)) [
      | inl e ↦ rw e (system_value to_lower r (variable_name name), refl)
      | inr e ↦ rw e (find_field_works r.field_names r.record_data name h)
    ]

pub all_fields_works :
    (to_lower : Bytes → Bytes) (r : Record) (fs : List Bytes) (acc : Fields)
    → IsFilled r.field_names r.record_data
    → (all : Fields) × (all_fields to_lower r fs acc ≡ ok all)
unfolding all_fields
all_fields_works to_lower r [] acc h = (acc, refl)
all_fields_works to_lower r (f ∷ fs) acc h =
    let (v, e) = record_value_works to_lower r (new_variable_name to_lower f) h in
    let (all, e') =
      all_fields_works to_lower r fs (assign acc (new_variable_name to_lower f) v) h in
    (all, after_ok _ e e')
