-- ===== src/Execution/Distinct/Tally.antt =====
-- What is counted in a run of a group of equal records, and what the storage keeps of it.
use octosql.Base.{
  ℕ, suc, ◌+◌, ◌%◌, ◌<◌, ◌≡◌, refl, ap, Bool, true, false, ◌||◌, List, [], ◌∷◌, Option, none, some,
  is_some, ok, ltb, ◌==◌, if◌then◌else◌, arith,
}
use mathlib.Core.Path.{subst}
use octosql.Base.Int.{int_add, int_sub, int_positive, word_mod, sign_bit}
use octosql.Value.{Value, int, Values}
use octosql.Aggregates.{as_int}
use octosql.Storage.{StorageOps, or_zero, found}
use octosql.Execution.Records.{Record}
use octosql.Execution.Distinct.{
  RecordOps, found_record, optional_record, is_present, DistinctStep, arrives, triggered,
}

-- How many records were added and how many undone.
abbrev pub tally_one : Bool → ℕ × ℕ → ℕ × ℕ
tally_one true (a, u) = (a, suc u)
tally_one false (a, u) = (suc a, u)

abbrev pub tally : {o : StorageOps} {c : RecordOps} → ℕ × ℕ → List (DistinctStep o c) → ℕ × ℕ
tally n [] = n
tally n (arrives r ∷ steps) = tally (tally_one r.metadata.undo n) steps
tally n (triggered ∷ steps) = tally n steps

-- The records that arrive have the values of the group, and IDs.
abbrev pub AllAlike : {o : StorageOps} {c : RecordOps} → Values → List (DistinctStep o c) → Type 0
AllAlike v [] = Unit
AllAlike v (arrives r ∷ steps) =
    (r.record_data ≡ v) × (is_some r.metadata.record_id ≡ true) × AllAlike v steps
AllAlike v (triggered ∷ steps) = AllAlike v steps

abbrev pub Shows : Values → Option Values → Type 0
Shows v none = Unit
Shows v (some d) = d ≡ v

-- A record of the group is kept while there are records, or while it is known to the consumer.
abbrev pub Keeps : Values → Bool → Option Record → Type 0
Keeps v false k = Unit
Keeps v true k = (r : Record) × (k ≡ some r) × (r.record_data ≡ v)

pub Keeps-some : (v : Values) (b : Bool) (r : Record) → r.record_data ≡ v → Keeps v b (some r)
Keeps-some v false r e = tt
Keeps-some v true r e = (r, refl, e)

pub Keeps-mono :
    (v : Values) (b b' : Bool) (k : Option Record)
    → (b' ≡ true → b ≡ true)
    → Keeps v b k
    → Keeps v b' k
Keeps-mono v b false k h x = tt
Keeps-mono v b true k h x = subst (λ t. Keeps v t k) (h refl) x

abbrev pub next_count : Bool → ℕ → ℕ
next_count undo w = if undo then int_sub w 1 else int_add w 1

-- The stored count `w` is the difference of the numbers counted.
abbrev pub Balanced : ℕ → ℕ × ℕ → Type 0
Balanced w (a, u) = (w < word_mod) × ((w + u) % word_mod ≡ (0 + a) % word_mod)

pub Balanced-tally_one :
    (undo : Bool) (w : ℕ) (n : ℕ × ℕ)
    → Balanced w n
    → Balanced (next_count undo w) (tally_one undo n)
Balanced-tally_one true w (a, u) (b, e) = (omega arith, omega arith)
Balanced-tally_one false w (a, u) (b, e) = (omega arith, omega arith)

pub total_one :
    (undo : Bool) (n : ℕ × ℕ) → (tally_one undo n).0 + (tally_one undo n).1 ≡ n.0 + n.1 + 1
total_one true (a, u) = omega arith
total_one false (a, u) = omega arith

-- Unless a record is the first one, there were records before if there are now.
pub not_first :
    (undo shown : Bool) (w : ℕ) (n : ℕ × ℕ)
    → Balanced w n
    → n.0 + n.1 + 1 < sign_bit
    → (next_count undo w == 1) ≡ false
    → (ltb (tally_one undo n).1 (tally_one undo n).0 || shown) ≡ true
    → (ltb n.1 n.0 || shown) ≡ true
not_first true true w (a, u) (b, e) l h k = ground arith
not_first true false w (a, u) (b, e) l h k = ground arith
not_first false true w (a, u) (b, e) l h k = ground arith
not_first false false w (a, u) (b, e) l h k = ground arith

pub is_present-found :
    (c : Option Value) (w : ℕ) → or_zero (found c) ≡ ok (int w) → is_present c ≡ int_positive w
is_present-found none w h = let e : 0 ≡ w = cc in ap int_positive e
is_present-found (some v) w h = let e : v ≡ int w = cc in ap (λ x. int_positive (as_int x)) e

pub optional_record-found : (k : Option Record) → optional_record (found_record k) ≡ ok k
optional_record-found none = refl
optional_record-found (some r) = refl
