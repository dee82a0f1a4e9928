-- ===== src/Storage/Deque.antt =====
-- storage/deque.go. A deque keeps its elements under consecutive indices, and beside them the first
-- free index before its front and the first free index behind its back. Indices are int64 words.
pub mod Slots
pub mod Machine
pub mod Lists
pub mod Clear
pub mod Refine
use octosql.Base.{
  ℕ, zero, suc, Bool, true, false, ◌++◌, List, [], ◌∷◌, Option, none, some, Bytes, Outcome, ok, err,
  panic, ◌>>=◌, not_found, out_of_fuel, if◌then◌else◌,
}
use octosql.Base.Int.{int_add, int_sub, int_less}
use octosql.Value.{Value}
use octosql.SortedKeys.{marshal_int64, unmarshal_int64}
use octosql.Storage.Transactions.{Transactions}

-- The keys `$value$`, `$first$` and `$last$`.
abbrev pub value_key_prefix : Bytes
value_key_prefix = 36 ∷ 118 ∷ 97 ∷ 108 ∷ 117 ∷ 101 ∷ 36 ∷ []

pub data Spot : Type 0 where
  front_spot back_spot : Spot

abbrev pub spot_key : Spot → Bytes
spot_key front_spot = 36 ∷ 102 ∷ 105 ∷ 114 ∷ 115 ∷ 116 ∷ 36 ∷ []
spot_key back_spot = 36 ∷ 108 ∷ 97 ∷ 115 ∷ 116 ∷ 36 ∷ []

-- `defaultValues`, of the two attributes that there are.
abbrev pub default_value : Spot → ℕ
default_value front_spot = 0
default_value back_spot = 1

unfoldable pub get_index_key : ℕ → Bytes
get_index_key index = value_key_prefix ++ marshal_int64 index

abbrev pub increase : ℕ → ℕ
increase i = int_add i 1

abbrev pub decrease : ℕ → ℕ
decrease i = int_sub i 1

module _ (t : Transactions) where
  pub record Deque : Type 0 where
    pub tx : t.Transaction
    pub initialized_front : Bool
    pub initialized_back : Bool
    pub first_free_front_spot : ℕ
    pub first_free_back_spot : ℕ

  abbrev pub new_deque : t.Transaction → Deque
  new_deque s = record {
    tx = s;
    initialized_front = false;
    initialized_back = false;
    first_free_front_spot = 0;
    first_free_back_spot = 1;
  }

  -- An attribute that is not there is set to its default value.
  unfoldable pub get_attribute : t.Transaction → Spot → Outcome (ℕ × t.Transaction)
  get_attribute s attr = elim (t.tx_get s (spot_key attr)) [
    | ok value ↦ unmarshal_int64 value >>= λ i. ok (i, s)
    | err e ↦ elim e [
      | not_found ↦ t.tx_set s (spot_key attr) (marshal_int64 (default_value attr)) >>= λ s'.
          ok (default_value attr, s')
      | other ↦ err other
    ]
    | panic ↦ panic
  ]

  unfoldable pub modify_attribute : t.Transaction → Spot → (ℕ → ℕ) → Outcome t.Transaction
  unfolding get_attribute
  modify_attribute s attr modifier = do
    (value, s') ← get_attribute s attr
    t.tx_set s' (spot_key attr) (marshal_int64 (modifier value))

  unfoldable pub initialize_front : Deque → Outcome Deque
  unfolding get_attribute
  initialize_front dq = do
    (front, s) ← get_attribute dq.tx front_spot
    ok (record dq { tx = s; first_free_front_spot = front; initialized_front = true })

  unfoldable pub initialize_back : Deque → Outcome Deque
  unfolding get_attribute
  initialize_back dq = do
    (back, s) ← get_attribute dq.tx back_spot
    ok (record dq { tx = s; first_free_back_spot = back; initialized_back = true })

  -- The guard `if !dq.initializedFront` that the operations start with, and that of the back.
  unfoldable pub ready_front : Deque → Outcome Deque
  unfolding initialize_front
  ready_front dq = if dq.initialized_front then ok dq else initialize_front dq

  unfoldable pub ready_back : Deque → Outcome Deque
  unfolding initialize_back
  ready_back dq = if dq.initialized_back then ok dq else initialize_back dq

  -- `increaseFirstFreeFrontSpot` and the three like it: the attribute is modified in the storage, and
  -- then the copy in the deque.
  unfoldable pub move_front_spot : (ℕ → ℕ) → Deque → Outcome Deque
  unfolding modify_attribute
  move_front_spot modifier dq = do
    s ← modify_attribute dq.tx front_spot modifier
    ok (record dq { tx = s; first_free_front_spot = modifier dq.first_free_front_spot })

  unfoldable pub move_back_spot : (ℕ → ℕ) → Deque → Outcome Deque
  unfolding modify_attribute
  move_back_spot modifier dq = do
    s ← modify_attribute dq.tx back_spot modifier
    ok (record dq { tx = s; first_free_back_spot = modifier dq.first_free_back_spot })

  unfoldable pub push_front : Deque → Value → Outcome Deque
  unfolding ready_front move_front_spot
  push_front dq value = do
    dq' ← ready_front dq
    data_bytes ← t.proto_marshal value
    s ← t.tx_set dq'.tx (get_index_key dq'.first_free_front_spot) data_bytes
    move_front_spot decrease (record dq' { tx = s })

  unfoldable pub push_back : Deque → Value → Outcome Deque
  unfolding ready_back move_back_spot
  push_back dq value = do
    dq' ← ready_back dq
    data_bytes ← t.proto_marshal value
    s ← t.tx_set dq'.tx (get_index_key dq'.first_free_back_spot) data_bytes
    move_back_spot increase (record dq' { tx = s })

  -- `none` stands for ErrNotFound, here and in the operations that pass it on.
  unfoldable pub get_value_at_index : t.Transaction → ℕ → Outcome (Option Value)
  get_value_at_index s index = elim (t.tx_get s (get_index_key index)) [
    | ok data_bytes ↦ t.proto_unmarshal data_bytes >>= λ v. ok (some v)
    | err e ↦ elim e [ not_found ↦ ok none | other ↦ err other ]
    | panic ↦ panic
  ]

  unfoldable pub peek_front : Deque → Outcome (Option Value × Deque)
  unfolding ready_front get_value_at_index
  peek_front dq = do
    dq' ← ready_front dq
    value ← get_value_at_index dq'.tx (increase dq'.first_free_front_spot)
    ok (value, dq')

  unfoldable pub peek_back : Deque → Outcome (Option Value × Deque)
  unfolding ready_back get_value_at_index
  peek_back dq = do
    dq' ← ready_back dq
    value ← get_value_at_index dq'.tx (decrease dq'.first_free_back_spot)
    ok (value, dq')

  -- What `PopFront` does once it has read the element.
  unfoldable pub remove_front : Option Value → Deque → Outcome (Option Value × Deque)
  unfolding move_front_spot
  remove_front none dq = ok (none, dq)
  remove_front (some v) dq = do
    s ← t.tx_delete dq.tx (get_index_key (increase dq.first_free_front_spot))
    dq' ← move_front_spot increase (record dq { tx = s })
    ok (some v, dq')

  unfoldable pub remove_back : Option Value → Deque → Outcome (Option Value × Deque)
  unfolding move_back_spot
  remove_back none dq = ok (none, dq)
  remove_back (some v) dq = do
    s ← t.tx_delete dq.tx (get_index_key (decrease dq.first_free_back_spot))
    dq' ← move_back_spot decrease (record dq { tx = s })
    ok (some v, dq')

  unfoldable pub pop_front : Deque → Outcome (Option Value × Deque)
  unfolding peek_front remove_front
  pop_front dq = do (value, dq') ← peek_front dq; remove_front value dq'

  unfoldable pub pop_back : Deque → Outcome (Option Value × Deque)
  unfolding peek_back remove_back
  pop_back dq = do (value, dq') ← peek_back dq; remove_back value dq'

  -- The loop of `Clear` between the two spots, on fuel of the distance between them.
  unfoldable pub clear_elements : ℕ → t.Transaction → ℕ → ℕ → Outcome t.Transaction
  clear_elements zero s front back = err out_of_fuel
  clear_elements (suc fuel) s front back =
      if int_less 1 (int_sub back front)
      then (do
        s' ← t.tx_delete s (get_index_key (increase front))
        clear_elements fuel s' (increase front) back)
      else ok s

  unfoldable pub clear : Deque → Outcome Deque
  unfolding ready_front ready_back clear_elements
  clear dq = do
    dq' ← ready_front dq
    dq'' ← ready_back dq'
    let distance = int_sub dq''.first_free_back_spot dq''.first_free_front_spot
    s ← clear_elements (suc distance) dq''.tx dq''.first_free_front_spot dq''.first_free_back_spot
    s' ← t.tx_delete s (spot_key front_spot)
    s'' ← t.tx_delete s' (spot_key back_spot)
    ok (new_deque s'')

  unfoldable pub length_of : Deque → Outcome (ℕ × Deque)
  unfolding ready_front ready_back
  length_of dq = do
    dq' ← ready_front dq
    dq'' ← ready_back dq'
    ok (int_sub (int_sub dq''.first_free_back_spot dq''.first_free_front_spot) 1, dq'')
