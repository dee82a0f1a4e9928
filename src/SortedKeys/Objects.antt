-- ===== src/SortedKeys/Objects.antt =====
-- The maps of sorted_keys.go: sorting entries that are in order changes nothing, and pairing the
-- elements of a tuple up gives the map whose keys and values they are.
use octosql.Base.{
  ◌≡◌, refl, ap, true, false, ◌∷◌, arith, Bytes, ok, >>=-eq-ok, ok-injective, bytes_less,
  bytes_equal, bytes_equal_iff, ◌∙◌,
}
use octosql.Base.ByteOrder.{bytes_less_trans, bytes_less_irrefl}
use octosql.Value.{Value, Values, Fields, string, nil, cons, no_fields, field}
use octosql.SortedKeys.Encode.{
  Entries, sort_entries, insert_entry, marshal_fields, monotonic_marshal,
}
use octosql.SortedKeys.Decode.{tuple_to_object, set_field, pair_up}

-- The keys of a map as the encoder meets them: in order, and no key twice.
abbrev pub IsSorted : Fields → Type 0
IsSorted no_fields = Unit
IsSorted (field k v no_fields) = Unit
IsSorted (field k v (field k' v' fs)) = (bytes_less k k' ≡ true) × IsSorted (field k' v' fs)

pub IsSorted-tail : (k : Bytes) (v : Value) (fs : Fields) → IsSorted (field k v fs) → IsSorted fs
IsSorted-tail k v no_fields h = tt
IsSorted-tail k v (field k' v' fs) h = h.1

-- The elements of the tuple by which a map is encoded.
abbrev pub flat : Fields → Values
flat no_fields = nil
flat (field k v fs) = cons (string k) (cons v (flat fs))

marshal_fields-field :
    (k : Bytes) (v : Value) (fs : Fields) {es : Entries}
    → marshal_fields (field k v fs) ≡ ok es
    → (b : Bytes) × (es' : Entries) × (monotonic_marshal v ≡ ok b)
      × (marshal_fields fs ≡ ok es')
      × (es ≡ (k, b) ∷ es')
unfolding monotonic_marshal
marshal_fields-field k v fs h =
    let (b, eb, h') = >>=-eq-ok (monotonic_marshal v) _ h in
    let (es', ees, e) = >>=-eq-ok (marshal_fields fs) _ h' in (b, es', eb, ees, cc)

less-asymm : (k k' : Bytes) → bytes_less k k' ≡ true → bytes_less k' k ≡ false
less-asymm k k' h = ground (arith, bytes_less_trans k k' k h, bytes_less_irrefl k)

insert_entry-first :
    (k b k' b' : Bytes) (es : Entries)
    → bytes_less k k' ≡ true
    → insert_entry k b ((k', b') ∷ es) ≡ (k, b) ∷ (k', b') ∷ es
unfolding insert_entry
insert_entry-first k b k' b' es h = rw (less-asymm k k' h)

-- The entries of a sorted map are in order already.
pub sort_entries-sorted :
    (fs : Fields) {es : Entries} → IsSorted fs → marshal_fields fs ≡ ok es → sort_entries es ≡ es
unfolding sort_entries marshal_fields
sort_entries-sorted no_fields s h = rw (← ok-injective h)
sort_entries-sorted (field k v no_fields) s h =
    let (b, es', eb, ees, e) = marshal_fields-field k v no_fields h in rw (e, ← ok-injective ees)
sort_entries-sorted (field k v (field k' v' fs)) s h =
    let (b, es', eb, ees, e) = marshal_fields-field k v (field k' v' fs) h in
    let (b', es'', eb', ees', e') = marshal_fields-field k' v' fs ees in
    let tail = sort_entries-sorted (field k' v' fs) s.1 ees in
    rw (e, tail, e', insert_entry-first k b k' b' es'' s.0)

-- All keys of the first map are below the key.
abbrev KeysBelow : Bytes → Fields → Type 0
KeysBelow k no_fields = Unit
KeysBelow k (field k' v fs) = (bytes_less k' k ≡ true) × KeysBelow k fs

abbrev append_fields : Fields → Fields → Fields
append_fields no_fields gs = gs
append_fields (field k v fs) gs = field k v (append_fields fs gs)

set_field-new :
    (k : Bytes) (v : Value) (acc : Fields)
    → KeysBelow k acc
    → set_field k v acc ≡ append_fields acc (field k v no_fields)
unfolding set_field
set_field-new k v no_fields h = refl
set_field-new k v (field k' v' fs) h =
    let other : bytes_equal k' k ≡ false =
      ground (arith, bytes_equal_iff k' k, bytes_less_irrefl k) in
    rw (other, set_field-new k v fs h.1)

append_fields_assoc :
    (a b c : Fields) → append_fields (append_fields a b) c ≡ append_fields a (append_fields b c)
append_fields_assoc no_fields b c = refl
append_fields_assoc (field k v a) b c = rw (append_fields_assoc a b c)

KeysBelow-next :
    (k k' : Bytes) (v : Value) (acc : Fields)
    → KeysBelow k acc
    → bytes_less k k' ≡ true
    → KeysBelow k' (append_fields acc (field k v no_fields))
KeysBelow-next k k' v no_fields h lt = (lt, tt)
KeysBelow-next k k' v (field j w acc) h lt =
    (bytes_less_trans j k k' h.0 lt, KeysBelow-next k k' v acc h.1 lt)

pair_up-flat :
    (k : Bytes) (v : Value) (fs acc : Fields)
    → IsSorted (field k v fs)
    → KeysBelow k acc
    → pair_up (flat (field k v fs)) acc ≡ ok (append_fields acc (field k v fs))
unfolding pair_up
pair_up-flat k v no_fields acc s h = rw (set_field-new k v acc h)
pair_up-flat k v (field k' v' fs) acc s h =
    ap (pair_up (flat (field k' v' fs))) (set_field-new k v acc h)
    ∙ (pair_up-flat k' v' fs (append_fields acc (field k v no_fields)) s.1
          (KeysBelow-next k k' v acc h s.0)
        ∙ ap ok (append_fields_assoc acc (field k v no_fields) (field k' v' fs)))

pub tuple_to_object-flat :
    (k : Bytes) (v : Value) (fs : Fields)
    → IsSorted (field k v fs)
    → tuple_to_object (flat (field k v fs)) ≡ ok (field k v fs)
unfolding tuple_to_object
tuple_to_object-flat k v fs s = pair_up-flat k v fs no_fields s tt
