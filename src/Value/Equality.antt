-- ===== src/Value/Equality.antt =====
-- Equality of two values, kinds and contents alike, as a test: what a client of a map tells its keys
-- apart by. (`AreEqual` of values.go is another test.)
use octosql.Base.{
  Bool, true, false, ◌≡◌, ◌↔◌, refl, ◌&&◌, ◌==◌, bytes_equal, bytes_equal_iff, arith,
}
use octosql.Value.Types.{
  Value, Values, Fields, zero_value, null, phantom, int, float, bool, string, time, duration, tuple,
  object, nil, cons, no_fields, field,
}

abbrev same_bool : Bool → Bool → Bool
same_bool true true = true
same_bool false false = true
same_bool _ _ = false

abbrev mutual
  pub value_equal : Value → Value → Bool
  value_equal zero_value zero_value = true
  value_equal null null = true
  value_equal phantom phantom = true
  value_equal (int x) (int y) = x == y
  value_equal (float x) (float y) = x == y
  value_equal (bool x) (bool y) = same_bool x y
  value_equal (string x) (string y) = bytes_equal x y
  value_equal (time s n) (time s' n') = s == s' && n == n'
  value_equal (duration x) (duration y) = x == y
  value_equal (tuple x) (tuple y) = values_equal x y
  value_equal (object x) (object y) = fields_equal x y
  value_equal _ _ = false

  pub values_equal : Values → Values → Bool
  values_equal nil nil = true
  values_equal (cons v vs) (cons w ws) = value_equal v w && values_equal vs ws
  values_equal _ _ = false

  pub fields_equal : Fields → Fields → Bool
  fields_equal no_fields no_fields = true
  fields_equal (field k v fs) (field j w gs) =
      bytes_equal k j && (value_equal v w && fields_equal fs gs)
  fields_equal _ _ = false

and_split : (a b : Bool) → (a && b) ≡ true → (a ≡ true) × (b ≡ true)
and_split a b h = ground arith

mutual
  value_equal_sound : (v w : Value) → value_equal v w ≡ true → v ≡ w
  value_equal_sound (string x) (string y) h = ground (arith, bytes_equal_iff x y)
  value_equal_sound (tuple x) (tuple y) h = ground (arith, values_equal_sound x y)
  value_equal_sound (object x) (object y) h = ground (arith, fields_equal_sound x y)
  value_equal_sound v w h = ground arith

  values_equal_sound : (vs ws : Values) → values_equal vs ws ≡ true → vs ≡ ws
  values_equal_sound nil nil h = refl
  values_equal_sound (cons v vs) (cons w ws) h =
      ground (arith, value_equal_sound v w, values_equal_sound vs ws)
  values_equal_sound _ _ h = cc

  fields_equal_sound : (fs gs : Fields) → fields_equal fs gs ≡ true → fs ≡ gs
  fields_equal_sound no_fields no_fields h = refl
  fields_equal_sound (field k v fs) (field j w gs) h =
      let (hk, h') = and_split (bytes_equal k j) _ h in
      let (hv, hf) = and_split (value_equal v w) _ h' in
      cc ((bytes_equal_iff k j).0 hk, value_equal_sound v w hv, fields_equal_sound fs gs hf)
  fields_equal_sound _ _ h = cc

mutual
  value_equal_refl : (v : Value) → value_equal v v ≡ true
  value_equal_refl (int x) = ground arith
  value_equal_refl (float x) = ground arith
  value_equal_refl (bool x) = ground arith
  value_equal_refl (string x) = ground (arith, bytes_equal_iff x x)
  value_equal_refl (time s n) = ground arith
  value_equal_refl (duration x) = ground arith
  value_equal_refl (tuple x) = values_equal_refl x
  value_equal_refl (object x) = fields_equal_refl x
  value_equal_refl _ = refl

  values_equal_refl : (vs : Values) → values_equal vs vs ≡ true
  values_equal_refl nil = refl
  values_equal_refl (cons v vs) = rw (value_equal_refl v) (values_equal_refl vs)

  fields_equal_refl : (fs : Fields) → fields_equal fs fs ≡ true
  fields_equal_refl no_fields = refl
  fields_equal_refl (field k v fs) =
      rw (value_equal_refl v) (ground (arith, bytes_equal_iff k k, fields_equal_refl fs))

pub value_equal_iff : (v w : Value) → (value_equal v w ≡ true) ↔ (v ≡ w)
value_equal_iff v w = (value_equal_sound v w, λ e. rw e (value_equal_refl w))
