-- ===== src/Execution/OrderBy/Firsts.antt =====
-- execution/order_by.go: of each key the first record that arrived is kept.
use octosql.Base.{
  ℕ, zero, suc, Bool, true, false, ◌||◌, List, [], ◌∷◌, ◌++◌, Bytes, Option, none, some, is_some,
  Outcome, ok, err, panic, ◌≡◌, refl, if◌then◌else◌, bytes_equal, bytes_equal_iff, arith,
  Bool-cases, inl, inr, sym, ◌∙◌,
}
use octosql.Execution.Records.{Record}
use octosql.Execution.OrderBy.{OrderLibraries, OrderExpression, order_key, copies}
use octosql.Execution.OrderBy.Entries.{
  insert_entry, is_entered, entry_step, is_entered-insert_entry,
}
use octosql.Execution.OrderBy.Counted.{HaveKeys, has_key, AllKeyed}
use octosql.Execution.OrderBy.Sent.{sent}

abbrev or_else : Option Record → Option Record → Option Record
or_else none c = c
or_else (some r) c = some r

-- The entries are what a function says of their keys.
abbrev pub AllMapped : (Bytes → Option Record) → List (Bytes × Record) → Type 0
AllMapped f [] = Unit
AllMapped f ((k, r) ∷ es) = (f k ≡ some r) × AllMapped f es

AllMapped-insert_entry :
    (f : Bytes → Option Record) (k : Bytes) (r : Record) (es : List (Bytes × Record))
    → f k ≡ some r
    → AllMapped f es
    → AllMapped f (insert_entry k r es)
AllMapped-insert_entry f k r [] e a = (e, tt)
AllMapped-insert_entry f k r ((j, q) ∷ es) e (h, a) =
    ground (arith, AllMapped-insert_entry f k r es e a)

AllMapped-or_else :
    (f g : Bytes → Option Record) (es : List (Bytes × Record))
    → AllMapped f es
    → AllMapped (λ k. or_else (f k) (g k)) es
AllMapped-or_else f g [] a = tt
AllMapped-or_else f g ((j, q) ∷ es) (h, a) = (rw h refl, AllMapped-or_else f g es a)

AllMapped-of_eq :
    (f g : Bytes → Option Record) (es : List (Bytes × Record))
    → ((k : Bytes) → f k ≡ g k)
    → AllMapped f es
    → AllMapped g es
AllMapped-of_eq f g [] e a = tt
AllMapped-of_eq f g ((j, q) ∷ es) e (h, a) = (sym (e j) ∙ h, AllMapped-of_eq f g es e a)

some_still :
    (c : Option Record) (b : Bool) (r : Record)
    → (b ≡ true → is_some c ≡ true)
    → is_some c ≡ is_some (or_else c (if b then some r else none))
some_still none true r h = h refl
some_still none false r h = refl
some_still (some q) b r h = refl

some_now :
    (c : Option Record) (b : Bool) (r : Record)
    → (b || is_some c) ≡ is_some (or_else c (if b then some r else none))
some_now none true r = refl
some_now none false r = refl
some_now (some q) true r = refl
some_now (some q) false r = refl

or_else_none : (c d : Option Record) → is_some c ≡ false → or_else c d ≡ d
or_else_none none d h = refl
or_else_none (some q) d h = cc

or_else_assoc :
    (c d : Option Record) (b : Bool) (r : Record)
    → or_else (or_else c (if b then some r else none)) d ≡ or_else c (if b then some r else d)
or_else_assoc none d true r = refl
or_else_assoc none d false r = refl
or_else_assoc (some q) d b r = refl

module _ (lib : OrderLibraries) (expressions : List OrderExpression) where
  abbrev step_by : Outcome Bytes → Record → List (Bytes × Record) → List (Bytes × Record)
  step_by (ok k) r es = entry_step k r es
  step_by (err e) r es = es
  step_by panic r es = es

  -- The entries after some records.
  abbrev pub entries_after : List Record → List (Bytes × Record) → List (Bytes × Record)
  entries_after [] es = es
  entries_after (r ∷ rs) es = entries_after rs (step_by (order_key lib expressions r) r es)

  -- The first record with a key.
  abbrev pub first_with : List Record → Bytes → Option Record
  first_with [] k = none
  first_with (r ∷ rs) k =
      let later = first_with rs k in if has_key lib expressions k r then some r else later

  -- Each record is the first one with its key.
  abbrev pub AllFirst : List Record → List Record → Type 0
  AllFirst rs [] = Unit
  AllFirst rs (r ∷ out) =
      ((k : Bytes) × (order_key lib expressions r ≡ ok k) × (first_with rs k ≡ some r))
      × AllFirst rs out

  step_from :
      (f : Bytes → Option Record) (r : Record) (j : Bytes) (es : List (Bytes × Record))
      → order_key lib expressions r ≡ ok j
      → AllMapped f es
      → ((k : Bytes) → is_entered k es ≡ is_some (f k))
      → AllMapped
          (λ k. or_else (f k) (if bytes_equal j k then some r else none))
          (entry_step j r es)
        × ((k : Bytes)
            → is_entered k (entry_step j r es)
              ≡ is_some (or_else (f k) (if bytes_equal j k then some r else none)))
  step_from f r j es key a n = elim (Bool-cases (is_entered j es)) [
    | inl e ↦ rw e (
      AllMapped-or_else f (λ k. if bytes_equal j k then some r else none) es a,
      λ k.
          n k
          ∙ some_still (f k) (bytes_equal j k) r
              (λ same. let e' : j ≡ k = (bytes_equal_iff j k).0 same in sym (n k) ∙ (rw (← e') e)),
    )
    | inr e ↦ rw e (
      AllMapped-insert_entry _ j r es
          (or_else_none (f j) _ (sym (n j) ∙ e) ∙ (rw ((bytes_equal_iff j j).1 refl) refl))
          (AllMapped-or_else f (λ k. if bytes_equal j k then some r else none) es a),
      λ k. is_entered-insert_entry j k r es ∙ (rw (n k) (some_now (f k) (bytes_equal j k) r)),
    )
  ]

  AllMapped-entries_after :
      (rs : List Record) (f : Bytes → Option Record) (es : List (Bytes × Record))
      → HaveKeys lib expressions rs
      → AllMapped f es
      → ((k : Bytes) → is_entered k es ≡ is_some (f k))
      → AllMapped (λ k. or_else (f k) (first_with rs k)) (entries_after rs es)
  AllMapped-entries_after [] f es h a n = AllMapped-or_else f (λ k. none) es a
  AllMapped-entries_after (r ∷ rs) f es ((j, key), h) a n =
      let (a', n') = step_from f r j es key a n in
      rw key (
        AllMapped-of_eq
          (λ k.
            or_else (or_else (f k) (if bytes_equal j k then some r else none)) (first_with rs k))
          _ (entries_after rs (entry_step j r es))
          (λ k. or_else_assoc (f k) (first_with rs k) (bytes_equal j k) r)
          (AllMapped-entries_after rs _ (entry_step j r es) h a' n'))

  pub AllMapped-of_empty :
      (rs : List Record)
      → HaveKeys lib expressions rs
      → AllMapped (first_with rs) (entries_after rs [])
  AllMapped-of_empty rs h = AllMapped-entries_after rs (λ k. none) [] h tt (λ k. refl)

  AllFirst-copies :
      (rs : List Record) (n : ℕ) (k : Bytes) (r : Record) (rest : List Record)
      → order_key lib expressions r ≡ ok k
      → first_with rs k ≡ some r
      → AllFirst rs rest
      → AllFirst rs (copies n r ++ rest)
  AllFirst-copies rs zero k r rest e f a = a
  AllFirst-copies rs (suc n) k r rest e f a = ((k, e, f), AllFirst-copies rs n k r rest e f a)

  pub AllFirst-sent :
      (rs : List Record) (times : Bytes → ℕ) (es : List (Bytes × Record))
      → AllKeyed lib expressions es
      → AllMapped (first_with rs) es
      → AllFirst rs (sent times es)
  AllFirst-sent rs times [] k a = tt
  AllFirst-sent rs times ((j, r) ∷ es) (key, k) (f, a) =
      AllFirst-copies rs (times j) j r (sent times es) key f (AllFirst-sent rs times es k a)
