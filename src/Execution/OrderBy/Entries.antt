-- ===== src/Execution/OrderBy/Entries.antt =====
-- A store for order_by.go that works: a sorted map of the records and the counts; and what it holds after
-- some records.
use octosql.Base.{
  Bool, true, false, ◌||◌, List, [], ◌∷◌, Bytes, Option, some, Outcome, ok, ◌≡◌, refl,
  if◌then◌else◌, bytes_equal, bytes_less, bytes_equal_iff, arith, Bool-cases, inl, inr, ◌∙◌,
}
use octosql.Base.ByteOrder.{bytes_less-swap, bytes_less_trans}
use octosql.Value.{Value}
use octosql.Storage.{found}
use octosql.Execution.Records.{Record}
use octosql.Execution.OrderBy.{OrderStorage}

-- A write into a map sorted by its keys.
abbrev pub insert_entry : Bytes → Record → List (Bytes × Record) → List (Bytes × Record)
insert_entry k r [] = (k, r) ∷ []
insert_entry k r ((j, q) ∷ es) =
    let later = (j, q) ∷ insert_entry k r es in
    if bytes_equal k j then (k, r) ∷ es else if bytes_less k j then (k, r) ∷ (j, q) ∷ es else later

abbrev pub yields : List (Bytes × Record) → List (Outcome (Bytes × Record))
yields [] = []
yields (e ∷ es) = ok e ∷ yields es

pub record OrderLaws (o : OrderStorage) : Type 1 where
  pub counts : o.OrderState → Bytes → Option Value
  pub entries : o.OrderState → List (Bytes × Record)
  pub put_count : o.OrderState → Bytes → Value → o.OrderState
  pub put_value : o.OrderState → Bytes → Record → o.OrderState
  pub count_get_lem : (s : o.OrderState) (k : Bytes) → o.count_get s k ≡ found (counts s k)
  pub count_set_lem :
      (s : o.OrderState) (k : Bytes) (v : Value) → o.count_set s k v ≡ ok (put_count s k v)
  pub value_set_lem :
      (s : o.OrderState) (k : Bytes) (r : Record) → o.value_set s k r ≡ ok (put_value s k r)
  pub value_iterate_lem : (s : o.OrderState) → o.value_iterate s ≡ yields (entries s)
  pub counts-put_count :
      (s : o.OrderState) (k : Bytes) (v : Value) (j : Bytes)
      → counts (put_count s k v) j ≡ (if bytes_equal k j then some v else counts s j)
  pub counts-put_value :
      (s : o.OrderState) (k : Bytes) (r : Record) (j : Bytes)
      → counts (put_value s k r) j ≡ counts s j
  pub entries-put_count :
      (s : o.OrderState) (k : Bytes) (v : Value) → entries (put_count s k v) ≡ entries s
  pub entries-put_value :
      (s : o.OrderState) (k : Bytes) (r : Record)
      → entries (put_value s k r) ≡ insert_entry k r (entries s)

-- Each key is less than all later ones.
abbrev pub AllAbove : Bytes → List (Bytes × Record) → Type 0
AllAbove k [] = Unit
AllAbove k ((j, q) ∷ es) = (bytes_less k j ≡ true) × AllAbove k es

abbrev pub Ascends : List (Bytes × Record) → Type 0
Ascends [] = Unit
Ascends ((k, r) ∷ es) = AllAbove k es × Ascends es

abbrev pub is_entered : Bytes → List (Bytes × Record) → Bool
is_entered k [] = false
is_entered k ((j, q) ∷ es) = bytes_equal j k || is_entered k es

AllAbove-trans :
    (k j : Bytes) (es : List (Bytes × Record))
    → bytes_less k j ≡ true
    → AllAbove j es
    → AllAbove k es
AllAbove-trans k j [] h a = tt
AllAbove-trans k j ((i, q) ∷ es) h (l, a) = (bytes_less_trans k j i h l, AllAbove-trans k j es h a)

AllAbove-insert_entry :
    (j k : Bytes) (r : Record) (es : List (Bytes × Record))
    → bytes_less j k ≡ true
    → AllAbove j es
    → AllAbove j (insert_entry k r es)
AllAbove-insert_entry j k r [] h a = (h, tt)
AllAbove-insert_entry j k r ((i, q) ∷ es) h (l, a) = elim (Bool-cases (bytes_equal k i)) [
  | inl e ↦ rw e (h, a)
  | inr e ↦ elim (Bool-cases (bytes_less k i)) [
    | inl b ↦ rw (e, b) (h, (l, a))
    | inr b ↦ rw (e, b) (l, AllAbove-insert_entry j k r es h a)
  ]
]

pub Ascends-insert_entry :
    (k : Bytes) (r : Record) (es : List (Bytes × Record))
    → Ascends es
    → Ascends (insert_entry k r es)
Ascends-insert_entry k r [] a = (tt, tt)
Ascends-insert_entry k r ((i, q) ∷ es) (a, as') = elim (Bool-cases (bytes_equal k i)) [
  | inl e ↦ let same : k ≡ i = (bytes_equal_iff k i).0 e in rw e (rw (← same) at a, as')
  | inr e ↦ elim (Bool-cases (bytes_less k i)) [
    | inl b ↦ rw (e, b) ((b, AllAbove-trans k i es b a), (a, as'))
    | inr b ↦
        let swapped : bytes_less i k ≡ true = bytes_less-swap k i e ∙ (rw b refl) in
        rw (e, b) (AllAbove-insert_entry i k r es swapped a, Ascends-insert_entry k r es as')
  ]
]

pub is_entered-insert_entry :
    (k j : Bytes) (r : Record) (es : List (Bytes × Record))
    → is_entered j (insert_entry k r es) ≡ (bytes_equal k j || is_entered j es)
is_entered-insert_entry k j r [] = refl
is_entered-insert_entry k j r ((i, q) ∷ es) =
    ground (arith, is_entered-insert_entry k j r es, bytes_equal_iff k i)

-- A record is entered where its key is not.
abbrev pub entry_step : Bytes → Record → List (Bytes × Record) → List (Bytes × Record)
entry_step k r es = let entered = insert_entry k r es in if is_entered k es then es else entered
