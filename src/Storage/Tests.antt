-- ===== src/Storage/Tests.antt =====
-- Applications of the theorems on value states, maps and deques, over a transaction in memory whose values
-- are ints.
use octosql.Base.{
  Bool, true, false, List, ◌≡◌, refl, Option, none, some, [], ◌∷◌, Bytes, bytes_equal, Outcome, ok,
  err, bad_size, not_found, ok-injective, if◌then◌else◌, arith,
}
use octosql.Value.{Value, int, string}
use octosql.SortedKeys.{monotonic_marshal, pack_bytes, byte_to_two_bytes}
use octosql.Storage.Transactions.{Transactions, TransactionLaws, StoreLaws, stored}
use octosql.Storage.Deque.{new_deque}
use octosql.Storage.Deque.Refine.{
  Request, add_front, add_back, take_front, take_back, see_front, see_back, empty_out, measure,
  done, element, count, replies, replies-list_replies,
}
use octosql.Storage.Maps.{map_set, map_get, map_delete}
use octosql.Storage.MapLaws.{map_get-map_set, map_get-map_delete}

abbrev Contents : Type 0
Contents = Bytes → Option Bytes

abbrev put : Contents → Bytes → Option Bytes → Contents
put s key b = λ j. if bytes_equal key j then b else s j

abbrev encode : Value → Outcome Bytes
encode (int w) = ok (w ∷ [])
encode _ = err bad_size

abbrev decode : Bytes → Outcome Value
decode (w ∷ []) = ok (int w)
decode _ = err bad_size

abbrev transactions : Transactions
transactions = record {
  Transaction = Contents;
  tx_get = λ s key. stored (s key);
  tx_set = λ s key b. ok (put s key (some b));
  tx_delete = λ s key. ok (put s key none);
  tx_entries = λ s back prefix. [];
  proto_marshal = encode;
  proto_unmarshal = decode;
}

stored_if :
    (test : Bool) (a b : Option Bytes)
    → stored (if test then a else b) ≡ (if test then stored a else stored b)
stored_if true a b = refl
stored_if false a b = refl

stored-put :
    (s s' : Contents) (key : Bytes) (b : Option Bytes) (j : Bytes)
    → ok (put s key b) ≡ ok s'
    → stored (s' j) ≡ (if bytes_equal key j then stored b else stored (s j))
stored-put s s' key b j h = rw (← ok-injective h) (stored_if (bytes_equal key j) b (s j))

decode-encode : (v : Value) {bytes : Bytes} → encode v ≡ ok bytes → decode bytes ≡ ok v
decode-encode (int w) h = rw (← ok-injective h)
decode-encode _ h = cc

abbrev transaction_laws : TransactionLaws transactions
transaction_laws = record {
  tx_get-tx_set = λ s key b {s'} j h. stored-put s s' key (some b) j h;
  tx_get-tx_delete = λ s key {s'} j h. stored-put s s' key none j h;
  proto_unmarshal-proto_marshal = decode-encode;
}

abbrev empty : Contents
empty = λ j. none

abbrev with_seven : Contents
with_seven = put empty [] (some (7 ∷ []))

-- The encoding of the string "a".
abbrev encoded_key : Bytes
encoded_key = 6 ∷ 128 ∷ 225 ∷ 11 ∷ []

map_get-map_set_example :
    (map_get transactions (put empty encoded_key (some (7 ∷ []))) (string (97 ∷ [])) ≡ ok (int 7))
    × (map_get transactions (put empty encoded_key (some (7 ∷ []))) (int 1)
        ≡ map_get transactions empty (int 1))
unfolding map_set monotonic_marshal pack_bytes byte_to_two_bytes
map_get-map_set_example =
    map_get-map_set transactions transaction_laws (λ s n. true) (string (97 ∷ [])) (omega arith, tt)
      empty (int 7) (int 1) (omega arith) (λ e. cc) refl

map_get-map_delete_example :
    (map_get transactions
        (put (put empty encoded_key (some (7 ∷ []))) encoded_key none)
        (string (97 ∷ []))
      ≡ err not_found)
    × (map_get transactions (put (put empty encoded_key (some (7 ∷ []))) encoded_key none) (int 1)
        ≡ map_get transactions (put empty encoded_key (some (7 ∷ []))) (int 1))
unfolding map_delete monotonic_marshal pack_bytes byte_to_two_bytes
map_get-map_delete_example =
    map_get-map_delete transactions transaction_laws (λ s n. true) (string (97 ∷ []))
      (omega arith, tt) (put empty encoded_key (some (7 ∷ []))) (int 1) (omega arith) (λ e. cc) refl

abbrev IsInt : Value → Type 0
IsInt (int w) = Unit
IsInt _ = ⊥

abbrev int_bytes : Value → Bytes
int_bytes (int w) = w ∷ []
int_bytes _ = []

encode_int : (v : Value) → IsInt v → encode v ≡ ok (int_bytes v)
encode_int (int w) h = refl
encode_int _ h = absurd h

decode_int : (v : Value) → IsInt v → decode (int_bytes v) ≡ ok v
decode_int (int w) h = refl
decode_int _ h = absurd h

abbrev store_laws : StoreLaws transactions
store_laws = record {
  content = λ s key. s key;
  write = put;
  tx_get_lem = λ s key. refl;
  tx_set_lem = λ s key b. refl;
  tx_delete_lem = λ s key. refl;
  content-write = λ s key b other. refl;
  Encodable = IsInt;
  encoded = int_bytes;
  proto_marshal_lem = encode_int;
  proto_unmarshal_lem = decode_int;
}

abbrev requests : List Request
requests =
    add_front (int 5)
    ∷ add_back (int 6)
    ∷ add_front (int 4)
    ∷ take_back
    ∷ see_front
    ∷ see_back
    ∷ measure
    ∷ empty_out
    ∷ take_front
    ∷ []

replies-list_replies_example :
    replies transactions (new_deque transactions empty) requests
    ≡ ok (
        done
        ∷ done
        ∷ done
        ∷ element (some (int 6))
        ∷ element (some (int 4))
        ∷ element (some (int 5))
        ∷ count 2
        ∷ done
        ∷ element none
        ∷ [])
replies-list_replies_example =
    replies-list_replies transactions store_laws requests empty
      (tt, (tt, (tt, (tt, (tt, (tt, (tt, (tt, (tt, tt))))))))) (omega arith) (λ key. refl)
