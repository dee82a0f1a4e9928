-- ===== src/Execution/StreamJoin/Shapes.antt =====
-- execution/stream_join.go: what a record is in the sets, the shape of the record and whether it is a
-- retraction.
use octosql.Base.{Bool, true, false, not, ◌&&◌, List, [], ◌∷◌, Bytes, ok, ◌≡◌, refl, arith, ◌∙◌}
use octosql.Value.{Value, Values, bool, string, tuple, nil, cons, value_equal, value_equal_iff}
use octosql.Physical.Names.{new_variable_name}
use octosql.Execution.Records.{Record, new_record_from_slice, with_undo, with_event_time_field}
use octosql.Execution.StreamJoin.Sets.{IsPlain, AllPlain}
use octosql.Execution.StreamJoin.Pairs.{
  JoinLibraries, name_values, copy_data, read_names, record_to_value, value_to_record,
}

pub record Shape : Type 0 where
  pub names : List Bytes
  pub contents : Values
  pub event : Bytes

abbrev pub shape_of : Record → Shape
shape_of r = record {
  names = r.field_names;
  contents = r.record_data;
  event = r.metadata.event_time_field;
}

unfoldable pub encode : Shape → Bool → Value
encode x b = tuple (
    cons (tuple (name_values x.names))
      (cons (tuple x.contents) (cons (bool b) (cons (string x.event) nil))))

-- Two shapes with one encoding.
unfoldable pub same_shape : Shape → Shape → Bool
unfolding encode
same_shape x y = value_equal (encode x false) (encode y false)

name_values-injective : (fs gs : List Bytes) → name_values fs ≡ name_values gs → fs ≡ gs
name_values-injective [] [] e = refl
name_values-injective [] (g ∷ gs) e = cc
name_values-injective (f ∷ fs) [] e = cc
name_values-injective (f ∷ fs) (g ∷ gs) e = cc (name_values-injective fs gs cc)

pub encode-injective : (x y : Shape) (b c : Bool) → encode x b ≡ encode y c → x ≡ y
unfolding encode
encode-injective x y b c e = cc (name_values-injective x.names y.names cc)

pub same_shape_sound : (x y : Shape) → same_shape x y ≡ true → x ≡ y
unfolding same_shape
same_shape_sound x y h =
    encode-injective x y false false ((value_equal_iff (encode x false) (encode y false)).0 h)

pub same_shape_refl : (x : Shape) → same_shape x x ≡ true
unfolding same_shape
same_shape_refl x = (value_equal_iff (encode x false) (encode x false)).1 refl

and_no : (a b : Bool) → (a && (b && false)) ≡ false
and_no a b = ground arith

and_true : (a : Bool) → a ≡ (a && true)
and_true a = ground arith

and_false : (a : Bool) → false ≡ (a && false)
and_false a = ground arith

pub encode-plain :
    (x y : Shape) (b : Bool) → value_equal (encode x b) (encode y false) ≡ (same_shape x y && not b)
unfolding encode same_shape
encode-plain x y true = and_no _ _ ∙ and_false _
encode-plain x y false = and_true _

pub encode-undone :
    (x y : Shape) (b : Bool) → value_equal (encode x b) (encode y true) ≡ (same_shape x y && b)
unfolding encode same_shape
encode-undone x y true = and_true _
encode-undone x y false = and_no _ _ ∙ and_false _

names-AllPlain : (fs : List Bytes) → AllPlain (name_values fs)
names-AllPlain [] = tt
names-AllPlain (f ∷ fs) = (tt, names-AllPlain fs)

pub encode-IsPlain : (x : Shape) (b : Bool) → AllPlain x.contents → IsPlain (encode x b)
unfolding encode
encode-IsPlain x b h = (names-AllPlain x.names, (h, (tt, (tt, tt))))

module _ (lib : JoinLibraries) where
  -- Names as `NewVariableName` leaves them, and as many data, which protobuf compares by their contents.
  pub record Normal (x : Shape) : Type 0 where
    pub names_kept : read_names lib (name_values x.names) ≡ x.names
    pub contents_kept : copy_data x.names x.contents ≡ ok x.contents
    pub plain : AllPlain x.contents
    pub event_kept : new_variable_name lib.to_lower x.event ≡ x.event

  pub record_to_value-encode :
      (r : Record)
      → Normal (shape_of r)
      → record_to_value lib r ≡ ok (encode (shape_of r) r.metadata.undo)
  unfolding record_to_value encode
  record_to_value-encode r n = rw (n.contents_kept, n.event_kept) refl

  -- The record that is read from a set.
  abbrev pub record_from : Shape → Bool → Record
  record_from x b =
      with_undo b (with_event_time_field x.event (new_record_from_slice x.names x.contents))

  pub value_to_record-encode :
      (x : Shape) (b : Bool) → Normal x → value_to_record lib (encode x b) ≡ ok (record_from x b)
  unfolding value_to_record encode
  value_to_record-encode x b n = rw (n.names_kept, n.event_kept) refl
