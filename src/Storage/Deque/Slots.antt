-- ===== src/Storage/Deque/Slots.antt =====
-- What the storage holds for a deque: the two spots, and a value or none in the slot of every index.
use octosql.Base.{
  ℕ, drop, ◌<◌, ◌≡◌, ◌⊎◌, inl, inr, refl, sym, ap, ◌∙◌, false, Option, none, some, Bytes,
  bytes_equal, bytes_equal_iff, ok, ok-injective, ◌==◌, ==_iff, if◌then◌else◌, arith, Bool-cases,
}
use mathlib.Core.Path.{subst, fun_ext}
use octosql.Base.Int.{word_mod}
use octosql.Value.{Value}
use octosql.SortedKeys.{marshal_int64, unmarshal_int64, uint64-put_uint64_alone, flip_sign}
use octosql.Storage.Transactions.{Transactions, StoreLaws, stored}
use octosql.Storage.Deque.{
  Spot, front_spot, back_spot, spot_key, default_value, get_index_key, get_attribute,
  modify_attribute, get_value_at_index,
}

unmarshal_int64-marshal_int64 : (w : ℕ) → w < word_mod → unmarshal_int64 (marshal_int64 w) ≡ ok w
unfolding marshal_int64 unmarshal_int64
unmarshal_int64-marshal_int64 w b =
    rw (uint64-put_uint64_alone (flip_sign w) (omega arith)) (ap ok (omega arith))

-- The keys of different indices differ, and so do those of an index and of the spots.
get_index_key-injective :
    (i j : ℕ) → i < word_mod → j < word_mod → get_index_key i ≡ get_index_key j → i ≡ j
unfolding get_index_key
get_index_key-injective i j bi bj h = ok-injective (
    sym (unmarshal_int64-marshal_int64 i bi)
    ∙ ap (λ b. unmarshal_int64 (drop 7 b)) h
    ∙ unmarshal_int64-marshal_int64 j bj)

index_keys :
    (i j : ℕ)
    → i < word_mod
    → j < word_mod
    → bytes_equal (get_index_key i) (get_index_key j) ≡ (i == j)
index_keys i j bi bj = elim (Bool-cases (i == j)) [
  | inl e ↦
      rw ((==_iff i j).0 e)
        ((bytes_equal_iff (get_index_key j) (get_index_key j)).1 refl ∙ sym ((==_iff j j).1 refl))
  | inr n ↦ elim (Bool-cases (bytes_equal (get_index_key i) (get_index_key j))) [
    | inl e ↦ absurd (
        cc (
          n,
          (==_iff i j).1 (
              get_index_key-injective i j bi bj
                ((bytes_equal_iff (get_index_key i) (get_index_key j)).0 e)),
        ))
    | inr e ↦ e ∙ sym n
  ]
]

spot_index_keys : (attr : Spot) (i : ℕ) → bytes_equal (spot_key attr) (get_index_key i) ≡ false
unfolding get_index_key
spot_index_keys front_spot i = refl
spot_index_keys back_spot i = refl

index_spot_keys : (i : ℕ) (attr : Spot) → bytes_equal (get_index_key i) (spot_key attr) ≡ false
unfolding get_index_key
index_spot_keys i front_spot = refl
index_spot_keys i back_spot = refl

abbrev pub Spots : Type 0
Spots = Spot → ℕ

abbrev pub Slots : Type 0
Slots = ℕ → Option Value

abbrev pub with_spot : Spots → Spot → ℕ → Spots
with_spot g front_spot w front_spot = w
with_spot g front_spot w back_spot = g back_spot
with_spot g back_spot w front_spot = g front_spot
with_spot g back_spot w back_spot = w

abbrev pub with_slot : Slots → ℕ → Option Value → Slots
with_slot sl i x = λ j. if i == j then x else sl j

module _ (t : Transactions) (laws : StoreLaws t) where
  abbrev encoded_slot : Option Value → Option Bytes
  encoded_slot none = none
  encoded_slot (some v) = some (laws.encoded v)

  abbrev pub IsEncodable : Option Value → Type 0
  IsEncodable none = Unit
  IsEncodable (some v) = laws.Encodable v

  -- A spot that is not stored has its default value.
  abbrev StandsFor : Option Bytes → Spot → ℕ → Type 0
  StandsFor c attr w = (c ≡ some (marshal_int64 w)) ⊎ ((c ≡ none) × (w ≡ default_value attr))

  abbrev HoldsSpot : t.Transaction → Spot → ℕ → Type 0
  HoldsSpot s attr w = StandsFor (laws.content s (spot_key attr)) attr w

  abbrev pub HoldsSpots : t.Transaction → Spots → Type 0
  HoldsSpots s g = (attr : Spot) → HoldsSpot s attr (g attr) × (g attr < word_mod)

  abbrev pub HoldsSlots : t.Transaction → Slots → Type 0
  HoldsSlots s sl =
      (i : ℕ)
      → i < word_mod
      → (laws.content s (get_index_key i) ≡ encoded_slot (sl i)) × IsEncodable (sl i)

  abbrev pub View : t.Transaction → Spots → Slots → Type 0
  View s g sl = HoldsSpots s g × HoldsSlots s sl

  read :
      (s : t.Transaction) (key : Bytes) {r : Option Bytes}
      → laws.content s key ≡ r
      → t.tx_get s key ≡ stored r
  read s key e = laws.tx_get_lem s key ∙ ap stored e

  other_spot :
      (s : t.Transaction) (g : Spots) (attr other : Spot) (c : Option Bytes) (w : ℕ)
      → HoldsSpots s g
      → StandsFor c attr w
      → w < word_mod
      → HoldsSpot (laws.write s (spot_key attr) c) other (with_spot g attr w other)
        × (with_spot g attr w other < word_mod)
  other_spot s g front_spot front_spot c w h k b =
      rw (laws.content-write s (spot_key front_spot) c (spot_key front_spot)) (k, b)
  other_spot s g front_spot back_spot c w h k b =
      rw (laws.content-write s (spot_key front_spot) c (spot_key back_spot)) (h back_spot)
  other_spot s g back_spot front_spot c w h k b =
      rw (laws.content-write s (spot_key back_spot) c (spot_key front_spot)) (h front_spot)
  other_spot s g back_spot back_spot c w h k b =
      rw (laws.content-write s (spot_key back_spot) c (spot_key back_spot)) (k, b)

  pub write_spot :
      (s : t.Transaction) (g : Spots) (sl : Slots) (attr : Spot) (c : Option Bytes) (w : ℕ)
      → View s g sl
      → StandsFor c attr w
      → w < word_mod
      → View (laws.write s (spot_key attr) c) (with_spot g attr w) sl
  write_spot s g sl attr c w (h, k) e b = (
    λ other. other_spot s g attr other c w h e b,
    λ i d.
        rw (laws.content-write s (spot_key attr) c (get_index_key i))
          (rw (spot_index_keys attr i) (k i d)),
  )

  pub write_slot :
      (s : t.Transaction) (g : Spots) (sl : Slots) (i : ℕ) (x : Option Value)
      → View s g sl
      → i < word_mod
      → IsEncodable x
      → View (laws.write s (get_index_key i) (encoded_slot x)) g (with_slot sl i x)
  write_slot s g sl i x (h, k) b e = (
    λ attr.
        rw (laws.content-write s (get_index_key i) (encoded_slot x) (spot_key attr))
          (rw (index_spot_keys i attr) (h attr)),
    λ j c. rw (laws.content-write s (get_index_key i) (encoded_slot x) (get_index_key j)) (
        rw (index_keys i j b c)
          (elim (Bool-cases (i == j)) [ inl t ↦ rw t (refl, e) | inr t ↦ rw t (k j c) ])),
  )

  same_spot : (g : Spots) (attr : Spot) (other : Spot) → with_spot g attr (g attr) other ≡ g other
  same_spot g front_spot front_spot = refl
  same_spot g front_spot back_spot = refl
  same_spot g back_spot front_spot = refl
  same_spot g back_spot back_spot = refl

  default_written :
      (s : t.Transaction) (g : Spots) (sl : Slots) (attr : Spot)
      → g attr ≡ default_value attr
      → View s g sl
      → View (laws.write s (spot_key attr) (some (marshal_int64 (default_value attr)))) g sl
  default_written s g sl attr d v =
      subst (λ w. View (laws.write s (spot_key attr) (some (marshal_int64 w))) g sl) d
        (subst (λ f. View (laws.write s (spot_key attr) (some (marshal_int64 (g attr)))) f sl)
          (fun_ext (same_spot g attr))
          (write_spot s g sl attr _ (g attr) v (inl refl) (v.0 attr).1))

  slot_read :
      (s : t.Transaction) (i : ℕ) (x : Option Value)
      → laws.content s (get_index_key i) ≡ encoded_slot x
      → IsEncodable x
      → get_value_at_index t s i ≡ ok x
  unfolding get_value_at_index
  slot_read s i none e a = rw (read s (get_index_key i) e, get_value_at_index) refl
  slot_read s i (some v) e a =
      rw (read s (get_index_key i) e, get_value_at_index) (rw (laws.proto_unmarshal_lem v a) refl)

  -- A spot is read as it is, or set to its default value, which it has already.
  pub get_attribute_lem :
      (s : t.Transaction) (g : Spots) (sl : Slots) (attr : Spot)
      → View s g sl
      → (s' : t.Transaction) × (get_attribute t s attr ≡ ok (g attr, s')) × View s' g sl
  unfolding get_attribute
  get_attribute_lem s g sl attr v = elim ((v.0 attr).0) [
    | inl e ↦
        rw (read s (spot_key attr) e, get_attribute)
          (rw (unmarshal_int64-marshal_int64 (g attr) (v.0 attr).1) (s, refl, v))
    | inr (e, d) ↦
        rw (read s (spot_key attr) e, get_attribute)
          (rw (laws.tx_set_lem s (spot_key attr) (marshal_int64 (default_value attr))) (
            laws.write s (spot_key attr) (some (marshal_int64 (default_value attr))),
            rw d refl,
            default_written s g sl attr d v,
          ))
  ]

  pub modify_attribute_lem :
      (s : t.Transaction) (g : Spots) (sl : Slots) (attr : Spot) (modifier : ℕ → ℕ)
      → View s g sl
      → modifier (g attr) < word_mod
      → (s' : t.Transaction) × (modify_attribute t s attr modifier ≡ ok s')
        × View s' (with_spot g attr (modifier (g attr))) sl
  unfolding modify_attribute
  modify_attribute_lem s g sl attr modifier v b =
      let (s', e, v') = get_attribute_lem s g sl attr v in
      rw e (
        rw (laws.tx_set_lem s' (spot_key attr) (marshal_int64 (modifier (g attr))))
          (_, refl, write_spot s' g sl attr _ (modifier (g attr)) v' (inl refl) b))

  pub get_value_at_index_lem :
      (s : t.Transaction) (g : Spots) (sl : Slots) (i : ℕ)
      → View s g sl
      → i < word_mod
      → get_value_at_index t s i ≡ ok (sl i)
  unfolding get_value_at_index
  get_value_at_index_lem s g sl i (h, k) b = slot_read s i (sl i) (k i b).0 (k i b).1
