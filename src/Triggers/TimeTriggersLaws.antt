-- ===== src/Triggers/TimeTriggersLaws.antt =====
-- Theorems about the reading of the keys sorted by time.
use octosql.Base.{
  ℕ, zero, suc, ◌<◌, ◌≡◌, refl, Bool, true, false, List, [], ◌∷◌, none, after_ok, take, Outcome, ok,
  if◌then◌else◌, arith, Bool-cases, inl, inr,
}
use octosql.Base.Int.{word_mod}
use octosql.Value.{Value, null, time, value_equal, value_equal_iff}
use octosql.SortedKeys.{make_time}
use octosql.Storage.{StorageOps, StorageLaws, IteratorOps}
use octosql.Triggers.TimeSortedKeys.{TimeSortedKeys, time_key, delete}
use octosql.Triggers.TimeTriggers.{
  Time, is_before, split_time_key, get_until_loop, get_until, delete_each,
}

-- What an iterator of the map by time yields for keys with their times.
abbrev pub listed : List (Value × Time) → List (Outcome (Value × Value))
listed [] = []
listed ((key, (s, n)) ∷ rest) = ok (time_key (time s n) key, null) ∷ listed rest

-- The keys whose time is not after a time.
abbrev pub due : Time → List (Value × Time) → List (Value × Time)
due until [] = []
due until ((key, t) ∷ rest) =
    let others = due until rest in if is_before until t then others else (key, t) ∷ others

-- No later key has an earlier time.
abbrev NoneBefore : Time → List (Value × Time) → Type 0
NoneBefore t [] = Unit
NoneBefore t ((key, t') ∷ rest) = (is_before t' t ≡ false) × NoneBefore t rest

abbrev pub Ascends : List (Value × Time) → Type 0
Ascends [] = Unit
Ascends ((key, t) ∷ rest) = (t.0 < word_mod) × NoneBefore t rest × Ascends rest

is_before_later :
    (u t t' : Time)
    → t.0 < word_mod
    → t'.0 < word_mod
    → is_before u t ≡ true
    → is_before t' t ≡ false
    → is_before u t' ≡ true
is_before_later (a, b) (s, n) (s', n') h h' e k = ground arith

pub due_none :
    (u t : Time) (es : List (Value × Time))
    → t.0 < word_mod
    → is_before u t ≡ true
    → NoneBefore t es
    → Ascends es
    → due u es ≡ []
due_none u t [] h e n a = refl
due_none u t ((key, t') ∷ es) h e (k, n) (h', _, a) =
    rw (is_before_later u t t' h h' e k) (due_none u t es h e n a)

get_until_loop_lem :
    (room : ℕ) (u : Time) (es : List (Value × Time))
    → Ascends es
    → get_until_loop room u (listed es) ≡ ok (take room (due u es))
unfolding get_until_loop split_time_key
get_until_loop_lem zero u [] a = refl
get_until_loop_lem (suc room) u [] a = refl
get_until_loop_lem zero u ((key, t) ∷ es) a = refl
get_until_loop_lem (suc room) u ((key, t) ∷ es) (h, n, a) = elim (Bool-cases (is_before u t)) [
  | inl e ↦ rw (e, due_none u t es h e n a) refl
  | inr e ↦ rw (e, get_until_loop_lem room u es a) refl
]

module _ (valid_time : ℕ → ℕ → Bool) (o : StorageOps) (it : IteratorOps o) where
  -- Where the iterator of the map by time yields keys with ascending times, `GetUntil` yields the first
  -- ones, as many as the batch has, of those whose time is not after the given one.
  pub get_until-due :
      (s : TimeSortedKeys valid_time o) (until : Time) (batch_size : ℕ) (es : List (Value × Time))
      → it.map_iterate s.0 false ≡ listed es
      → Ascends es
      → get_until valid_time o it s until batch_size ≡ ok (take batch_size (due until es))
  unfolding get_until
  get_until-due s until batch_size es e a = rw e (get_until_loop_lem batch_size until es a)

  module _ (laws : StorageLaws o) where
    abbrev pub AllValid : List (Value × Time) → Type 0
    AllValid [] = Unit
    AllValid ((key, (s, n)) ∷ rest) = (valid_time s n ≡ true) × AllValid rest

    -- None of the keys has a time any more, and none of the entries by time is there.
    abbrev pub AllForgotten : List (Value × Time) → TimeSortedKeys valid_time o → Type 0
    AllForgotten [] s = Unit
    AllForgotten ((key, t) ∷ rest) s =
        (laws.lookup s.1 key ≡ none)
        × (laws.lookup s.0 (time_key (time t.0 t.1) key) ≡ none)
        × AllForgotten rest s

    pub AllValid-take : (n : ℕ) (es : List (Value × Time)) → AllValid es → AllValid (take n es)
    AllValid-take zero es v = tt
    AllValid-take (suc n) [] v = tt
    AllValid-take (suc n) (e ∷ es) (v, vs) = (v, AllValid-take n es vs)

    pub AllValid-due : (u : Time) (es : List (Value × Time)) → AllValid es → AllValid (due u es)
    AllValid-due u [] v = tt
    AllValid-due u ((key, t) ∷ es) (v, vs) = elim (Bool-cases (is_before u t)) [
      | inl e ↦ rw e (AllValid-due u es vs)
      | inr e ↦ rw e (v, AllValid-due u es vs)
    ]

    delete_lem :
        (by_time by_key : o.Map) (key : Value) (t : Time)
        → valid_time t.0 t.1 ≡ true
        → delete valid_time o (by_time, by_key) key t
          ≡ ok (laws.put by_time (time_key (time t.0 t.1) key) none, laws.put by_key key none)
    unfolding delete make_time
    delete_lem by_time by_key key (s, n) v =
        rw
          (v, laws.map_delete_lem by_time (time_key (time s n) key), laws.map_delete_lem by_key key)
          refl

    still_none :
        (m : o.Map) (key j : Value)
        → laws.lookup m j ≡ none
        → laws.lookup (laws.put m key none) j ≡ none
    still_none m key j h =
        rw (laws.lookup-put m key none j)
          (elim (Bool-cases (value_equal key j)) [ inl e ↦ rw e refl | inr e ↦ rw (e, h) refl ])

    now_none : (m : o.Map) (key : Value) → laws.lookup (laws.put m key none) key ≡ none
    now_none m key = rw (laws.lookup-put m key none key, (value_equal_iff key key).1 refl) refl

    pub delete_each_lem :
        (l : List (Value × Time)) (s : TimeSortedKeys valid_time o)
        → AllValid l
        → (s' : TimeSortedKeys valid_time o) × (delete_each valid_time o it s l ≡ ok s')
          × ((j : Value) → laws.lookup s.0 j ≡ none → laws.lookup s'.0 j ≡ none)
          × ((j : Value) → laws.lookup s.1 j ≡ none → laws.lookup s'.1 j ≡ none)
          × AllForgotten l s'
    unfolding delete_each
    delete_each_lem [] s v = (s, refl, (λ j h. h), (λ j h. h), tt)
    delete_each_lem ((key, t) ∷ l) s (v, vs) =
        let (s', e, keep_time, keep, gone) = delete_each_lem l (_, laws.put s.1 key none) vs in
        (
          s',
          after_ok _ (delete_lem s.0 s.1 key t v) e,
          (λ j h. keep_time j (still_none s.0 (time_key (time t.0 t.1) key) j h)),
          (λ j h. keep j (still_none s.1 key j h)),
          (
            keep key (now_none s.1 key),
            keep_time (time_key (time t.0 t.1) key) (now_none s.0 (time_key (time t.0 t.1) key)),
            gone,
          ),
        )
