-- ===== src/Execution/StreamJoin/Memory.antt =====
-- A store in memory for the keys of a join.
use octosql.Base.{
  suc, ◌-◌, ◌&&◌, ◌==◌, Bool-cases, inl, inr, sym, arith, ℕ, true, false, List, [], ◌∷◌, Option,
  none, some, ok, ◌≡◌, refl, if◌then◌else◌, not,
}
use octosql.Value.{Value, int, value_equal, value_equal_iff}
use octosql.Storage.{found, or_zero}
use octosql.Execution.StreamJoin.{RecordSet, JoinStorage}
use octosql.Execution.StreamJoin.Sets.{JoinLaws, same_set, occurrences}

pub record Contents : Type 0 where
  pub counters : Value → Option Value
  pub sets : RecordSet → List Value
  pub triggered : Option Value

abbrev put_counter : Contents → Value → Option Value → Contents
put_counter s v c = record s { counters = λ w. if value_equal v w then c else s.counters w }

abbrev put_set : Contents → RecordSet → List Value → Contents
put_set s set vs = record s { sets = λ other. if same_set set other then vs else s.sets other }

abbrev without : Value → List Value → List Value
without v [] = []
without v (w ∷ ws) = if value_equal v w then ws else w ∷ without v ws

abbrev pub store : JoinStorage
store = record {
  JoinState = Contents;
  counter_get = λ s v. found (s.counters v);
  counter_set = λ s v c. ok (put_counter s v (some c));
  counter_clear = λ s v. ok (put_counter s v none);
  set_contains = λ s set v. ok (not (occurrences v (s.sets set) == 0));
  set_insert = λ s set v. ok (put_set s set (v ∷ s.sets set));
  set_erase = λ s set v. ok (put_set s set (without v (s.sets set)));
  set_read_all = λ s set. ok (s.sets set);
  set_clear = λ s set. ok (put_set s set []);
  triggered_get = λ s. found s.triggered;
  triggered_set = λ s n. ok (record s { triggered = some n });
}

same_set_eq : (a b : RecordSet) → same_set a b ≡ true → a ≡ b
same_set_eq a b h = ground arith

pub inserted_lem :
    (v j : Value) (vs : List Value)
    → occurrences j (v ∷ vs)
      ≡ (if value_equal v j then suc (occurrences v vs) else occurrences j vs)
inserted_lem v j vs = elim (Bool-cases (value_equal v j)) [
  | inl h ↦ let same : v ≡ j = (value_equal_iff v j).0 h in rw (h, same) (omega arith)
  | inr h ↦ rw h (omega arith)
]

apart_swapped : (v w : Value) → value_equal v w ≡ false → value_equal w v ≡ false
apart_swapped v w h = elim (Bool-cases (value_equal w v)) [
  | inl k ↦
      let same : w ≡ v = (value_equal_iff w v).0 k in
      let held : value_equal v w ≡ true = (value_equal_iff v w).1 (sym same) in cc
  | inr k ↦ k
]

pub or_zero-found : (c : Option Value) → (v : Value) × (or_zero (found c) ≡ ok v)
or_zero-found none = (int 0, refl)
or_zero-found (some v) = (v, refl)

pub erased_lem :
    (v j : Value) (vs : List Value)
    → occurrences j (without v vs)
      ≡ (if value_equal v j then occurrences v vs - 1 else occurrences j vs)
erased_lem v j [] = ground arith
erased_lem v j (w ∷ vs) = elim (Bool-cases (value_equal v w)) [
  | inl h ↦
      let same : v ≡ w = (value_equal_iff v w).0 h in
      rw (h, ← same, (value_equal_iff v v).1 refl)
        (elim (Bool-cases (value_equal v j)) [
          | inl k ↦ let same_j : v ≡ j = (value_equal_iff v j).0 k in rw (k, ← same_j) (omega arith)
          | inr k ↦ rw k (omega arith)
        ])
  | inr h ↦
      rw (h, erased_lem v j vs, apart_swapped v w h)
        (elim (Bool-cases (value_equal v j)) [
          | inl k ↦
              let same_j : v ≡ j = (value_equal_iff v j).0 k in
              rw (k, ← same_j, apart_swapped v w h) (omega arith)
          | inr k ↦ rw k refl
        ])
]

-- What a change of one set does to the numbers.
pub number_put :
    (s : Contents) (set other : RecordSet) (v j : Value) (vs : List Value) (n : ℕ)
    → occurrences j vs ≡ (if value_equal v j then n else occurrences j (s.sets set))
    → occurrences j ((put_set s set vs).sets other)
      ≡ (if same_set set other && value_equal v j then n else occurrences j (s.sets other))
number_put s set other v j vs n e = elim (Bool-cases (same_set set other)) [
  | inl h ↦ let same : set ≡ other = same_set_eq set other h in rw (h, ← same) e
  | inr h ↦ rw h refl
]

unfoldable pub store_laws : JoinLaws store
store_laws = record {
  counter = λ s v. s.counters v;
  number = λ s set v. occurrences v (s.sets set);
  counter_get_lem = λ s v p. refl;
  counter_set_lem = λ s v w p. (put_counter s v (some w), refl, (λ j. refl), (λ set j. refl));
  counter_clear_lem = λ s v p. (put_counter s v none, refl, (λ j. refl), (λ set j. refl));
  set_contains_lem = λ s set v p. refl;
  set_insert_lem = λ s set v p. (
    put_set s set (v ∷ s.sets set),
    refl,
    (λ j. refl),
    (λ other j. number_put s set other v j (v ∷ s.sets set) _ (inserted_lem v j (s.sets set))),
  );
  set_erase_lem = λ s set v p. (
    put_set s set (without v (s.sets set)),
    refl,
    (λ j. refl),
    (λ other j.
        number_put s set other v j (without v (s.sets set)) _ (erased_lem v j (s.sets set))),
  );
  set_read_all_lem = λ s set. (s.sets set, refl, (λ v. refl));
  set_clear_lem = λ s set. (
    put_set s set [],
    refl,
    (λ j. refl),
    (λ other j. elim (Bool-cases (same_set set other)) [ inl h ↦ rw h refl | inr h ↦ rw h refl ]),
  );
  triggered_get_lem = λ s. or_zero-found s.triggered;
  triggered_set_lem =
      λ s v. (record s { triggered = some v }, refl, (λ j. refl), (λ other j. refl));
}
