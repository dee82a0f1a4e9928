-- ===== src/Execution/StreamJoin/Sets.antt =====
-- A store for stream_join.go that works: what its operations do to the counts and the sets.
use octosql.Base.{
  ℕ, suc, ◌+◌, ◌-◌, Bool, true, false, not, ◌&&◌, List, [], ◌∷◌, Option, none, some, ok, ◌≡◌, ◌≢◌,
  refl, if◌then◌else◌, ◌==◌, arith,
}
use octosql.Value.{
  Values, float, tuple, object, nil, cons, is_nan, Value, value_equal, value_equal_iff,
}
use octosql.Base.Int.{sign_bit}
use octosql.Storage.{found, or_zero}
use octosql.Execution.OrderBy.Counted.{one}
use octosql.Execution.StreamJoin.{RecordSet, left_old, right_old, left_new, right_new, JoinStorage}

abbrev pub same_set : RecordSet → RecordSet → Bool
same_set left_old left_old = true
same_set right_old right_old = true
same_set left_new left_new = true
same_set right_new right_new = true
same_set _ _ = false

abbrev pub occurrences : Value → List Value → ℕ
occurrences v [] = 0
occurrences v (w ∷ ws) = one (value_equal w v) + occurrences v ws

-- The values that protobuf compares and serializes by their contents alone: no NaN, which is not equal to
-- itself, no -0, which is equal to 0, and no maps, whose serialization has no fixed order.
abbrev mutual
  pub IsPlain : Value → Type 0
  IsPlain (float b) = (is_nan b ≡ false) × ((b == sign_bit) ≡ false)
  IsPlain (tuple vs) = AllPlain vs
  IsPlain (object fs) = ⊥
  IsPlain _ = Unit

  pub AllPlain : Values → Type 0
  AllPlain nil = Unit
  AllPlain (cons v vs) = IsPlain v × AllPlain vs

-- The laws are of values that protobuf compares by their contents.
pub record JoinLaws (o : JoinStorage) : Type 1 where
  pub counter : o.JoinState → Value → Option Value
  pub number : o.JoinState → RecordSet → Value → ℕ
  pub counter_get_lem :
      (s : o.JoinState) (v : Value) → IsPlain v → o.counter_get s v ≡ found (counter s v)
  pub counter_set_lem :
      (s : o.JoinState) (v w : Value)
      → IsPlain v
      → (s' : o.JoinState) × (o.counter_set s v w ≡ ok s')
        × ((j : Value) → counter s' j ≡ (if value_equal v j then some w else counter s j))
        × ((set : RecordSet) (j : Value) → number s' set j ≡ number s set j)
  pub counter_clear_lem :
      (s : o.JoinState) (v : Value)
      → IsPlain v
      → (s' : o.JoinState) × (o.counter_clear s v ≡ ok s')
        × ((j : Value) → counter s' j ≡ (if value_equal v j then none else counter s j))
        × ((set : RecordSet) (j : Value) → number s' set j ≡ number s set j)
  pub set_contains_lem :
      (s : o.JoinState) (set : RecordSet) (v : Value)
      → IsPlain v
      → o.set_contains s set v ≡ ok (not (number s set v == 0))
  pub set_insert_lem :
      (s : o.JoinState) (set : RecordSet) (v : Value)
      → IsPlain v
      → (s' : o.JoinState) × (o.set_insert s set v ≡ ok s')
        × ((j : Value) → counter s' j ≡ counter s j)
        × ((other : RecordSet) (j : Value)
            → number s' other j ≡ (
                if same_set set other && value_equal v j
                then suc (number s set v)
                else number s other j))
  pub set_erase_lem :
      (s : o.JoinState) (set : RecordSet) (v : Value)
      → IsPlain v
      → (s' : o.JoinState) × (o.set_erase s set v ≡ ok s')
        × ((j : Value) → counter s' j ≡ counter s j)
        × ((other : RecordSet) (j : Value)
            → number s' other j ≡ (
                if same_set set other && value_equal v j
                then number s set v - 1
                else number s other j))
  pub set_read_all_lem :
      (s : o.JoinState) (set : RecordSet)
      → (vs : List Value) × (o.set_read_all s set ≡ ok vs)
        × ((v : Value) → occurrences v vs ≡ number s set v)
  pub set_clear_lem :
      (s : o.JoinState) (set : RecordSet)
      → (s' : o.JoinState) × (o.set_clear s set ≡ ok s')
        × ((j : Value) → counter s' j ≡ counter s j)
        × ((other : RecordSet) (j : Value)
            → number s' other j ≡ (if same_set set other then 0 else number s other j))
  pub triggered_get_lem : (s : o.JoinState) → (v : Value) × (or_zero (o.triggered_get s) ≡ ok v)
  pub triggered_set_lem :
      (s : o.JoinState) (v : Value)
      → (s' : o.JoinState) × (o.triggered_set s v ≡ ok s')
        × ((j : Value) → counter s' j ≡ counter s j)
        × ((other : RecordSet) (j : Value) → number s' other j ≡ number s other j)

-- What holds of every value of a list.
abbrev pub All : (Value → Type 0) → List Value → Type 0
All p [] = Unit
All p (v ∷ vs) = p v × All p vs

pub All-occurrences :
    (p : Value → Type 0) (vs : List Value) → ((v : Value) → occurrences v vs ≢ 0 → p v) → All p vs
All-occurrences p [] h = tt
All-occurrences p (v ∷ vs) h = (
  h v (λ e. let e' = rw ((value_equal_iff v v).1 refl) at e in omega (arith, e')),
  All-occurrences p vs (λ w n. h w (λ e. n (omega arith))),
)
