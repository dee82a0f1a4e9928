-- ===== src/Storage/Deque/Refine.antt =====
-- A deque answers as the list of its elements does.
use octosql.Base.{
  last_of, without_last, ℕ, ◌+◌, ◌<◌, ◌≤◌, ◌≡◌, refl, ap, ◌∙◌, List, [], ◌∷◌, ◌++◌, length, Option,
  none, Bytes, Outcome, ok, ◌>>=◌, after_ok, arith, inr, length-append,
}
use octosql.Base.Int.{int_sub, word_mod, sign_bit}
use octosql.Value.{Value}
use octosql.Storage.Transactions.{Transactions, StoreLaws}
use octosql.Storage.Deque.{
  Spot, front_spot, back_spot, spot_key, default_value, get_index_key, Deque, new_deque, push_front,
  push_back, peek_front, peek_back, pop_front, pop_back, clear, length_of,
}
use octosql.Storage.Deque.Slots.{Spots, Slots}
use octosql.Storage.Deque.Machine.{
  Reflects, ready_front_lem, ready_back_lem, push_front_lem, push_back_lem, peek_front_lem,
  peek_back_lem, pop_front_lem, pop_back_lem,
}
use octosql.Storage.Deque.Clear.{distance, clear_lem}
use octosql.Storage.Deque.Lists.{
  length-without_last, first_of, without_first, HoldsList, push_front-HoldsList,
  push_back-HoldsList, first_slot, last_slot, pop_front-HoldsList, pop_back-HoldsList,
}

-- What a client asks for: one constructor for each operation, in the order of the source.
pub data Request : Type 0 where
  add_front add_back : Value → Request
  take_front take_back see_front see_back empty_out measure : Request

pub data Reply : Type 0 where
  done : Reply
  element : Option Value → Reply
  count : ℕ → Reply

abbrev pub list_handle : List Value → Request → Reply × List Value
list_handle xs (add_front v) = (done, v ∷ xs)
list_handle xs (add_back v) = (done, xs ++ v ∷ [])
list_handle xs take_front = (element (first_of xs), without_first xs)
list_handle xs take_back = (element (last_of xs), without_last xs)
list_handle xs see_front = (element (first_of xs), xs)
list_handle xs see_back = (element (last_of xs), xs)
list_handle xs empty_out = (done, [])
list_handle xs measure = (count (length xs), xs)

abbrev pub list_replies : List Value → List Request → List Reply
list_replies xs [] = []
list_replies xs (r ∷ rs) = let (reply, ys) = list_handle xs r in reply ∷ list_replies ys rs

module _ (t : Transactions) where
  abbrev pub handle : Deque t → Request → Outcome (Reply × Deque t)
  handle dq (add_front v) = push_front t dq v >>= λ dq'. ok (done, dq')
  handle dq (add_back v) = push_back t dq v >>= λ dq'. ok (done, dq')
  handle dq take_front = pop_front t dq >>= λ (x, dq'). ok (element x, dq')
  handle dq take_back = pop_back t dq >>= λ (x, dq'). ok (element x, dq')
  handle dq see_front = peek_front t dq >>= λ (x, dq'). ok (element x, dq')
  handle dq see_back = peek_back t dq >>= λ (x, dq'). ok (element x, dq')
  handle dq empty_out = clear t dq >>= λ dq'. ok (done, dq')
  handle dq measure = length_of t dq >>= λ (n, dq'). ok (count n, dq')

  unfoldable pub replies : Deque t → List Request → Outcome (List Reply)
  replies dq [] = ok []
  replies dq (r ∷ rs) = do (reply, dq') ← handle dq r; rest ← replies dq' rs; ok (reply ∷ rest)

distance_of :
    (f f' b b' : ℕ) → f ≡ f' → b ≡ b' → int_sub (int_sub b f) 1 ≡ int_sub (int_sub b' f') 1
distance_of f f' b b' e d = rw (e, d) refl

one_less : (n : ℕ) → n + 2 < sign_bit → int_sub (n + 1) 1 ≡ n
one_less n h = omega arith

small : (attr : Spot) → default_value attr < word_mod
small front_spot = omega arith
small back_spot = omega arith

module _ (t : Transactions) (laws : StoreLaws t) where
  abbrev pub Carries : Request → Type 0
  Carries (add_front v) = laws.Encodable v
  Carries (add_back v) = laws.Encodable v
  Carries _ = Unit

  abbrev pub AllCarry : List Request → Type 0
  AllCarry [] = Unit
  AllCarry (r ∷ rs) = Carries r × AllCarry rs

  abbrev Is : Deque t → List Value → Type 0
  Is dq xs = (g : Spots) × (sl : Slots) × Reflects t laws dq g sl × HoldsList g sl xs

  abbrev Answers : Deque t → List Value → Request → Type 0
  Answers dq xs r =
      (dq' : Deque t) × (handle t dq r ≡ ok ((list_handle xs r).0, dq'))
      × Is dq' (list_handle xs r).1

  answers :
      (dq : Deque t) (xs : List Value) (r : Request)
      → Carries r
      → length xs + 3 < sign_bit
      → Is dq xs
      → Answers dq xs r
  unfolding length_of
  answers dq xs (add_front v) c b (g, sl, r, h) =
      let (dq', e, r') = push_front_lem t laws dq g sl v r c in
      (dq', after_ok _ e refl, (_, _, r', push_front-HoldsList g sl xs h v b))
  answers dq xs (add_back v) c b (g, sl, r, h) =
      let (dq', e, r') = push_back_lem t laws dq g sl v r c in
      (dq', after_ok _ e refl, (_, _, r', push_back-HoldsList g sl xs h v b))
  answers dq xs take_front c b (g, sl, r, h) =
      let (dq', e, r') = pop_front_lem t laws dq g sl (first_of xs) r (first_slot g sl xs h) in
      (dq', after_ok _ e refl, (_, _, r', pop_front-HoldsList g sl xs h))
  answers dq xs take_back c b (g, sl, r, h) =
      let (dq', e, r') = pop_back_lem t laws dq g sl (last_of xs) r (last_slot g sl xs h) in
      (dq', after_ok _ e refl, (_, _, r', pop_back-HoldsList g sl xs h))
  answers dq xs see_front c b (g, sl, r, h) =
      let (dq', e, r', _) = peek_front_lem t laws dq g sl r in
      (dq', after_ok _ e (ap (λ x. ok (element x, dq')) (first_slot g sl xs h)), (g, sl, r', h))
  answers dq xs see_back c b (g, sl, r, h) =
      let (dq', e, r', _) = peek_back_lem t laws dq g sl r in
      (dq', after_ok _ e (ap (λ x. ok (element x, dq')) (last_slot g sl xs h)), (g, sl, r', h))
  answers dq xs empty_out c b (g, sl, r, h) =
      let (dq', e, g', sl', r', h') = clear_lem t laws dq g sl xs r h in
      (dq', after_ok _ e refl, (g', sl', r', h'))
  answers dq xs measure c b (g, sl, r, h) =
      let (dq1, e1, r1, f1) = ready_front_lem t laws dq g sl r in
      let (dq2, e2, r2, b2, f2) = ready_back_lem t laws dq1 g sl r1 in
      let d =
        ap (λ n. int_sub n 1) (distance (g front_spot) (g back_spot) (length xs) h.0 h.1 h.2) in
      let n =
        distance_of _ (g front_spot) _ (g back_spot) (f2 ∙ f1) b2 ∙ d ∙ one_less (length xs) h.2 in
      (
        dq2,
        after_ok _ (after_ok _ e1 (after_ok _ e2 refl)) (ap (λ k. ok (count k, dq2)) n),
        (g, sl, r2, h),
      )

  -- A request adds one element at most.
  length-list_handle : (xs : List Value) (r : Request) → length (list_handle xs r).1 ≤ length xs + 1
  length-list_handle xs (add_front v) = omega arith
  length-list_handle xs (add_back v) = omega (arith, length-append xs (v ∷ []))
  length-list_handle [] take_front = omega arith
  length-list_handle (x ∷ xs) take_front = omega arith
  length-list_handle [] take_back = omega arith
  length-list_handle (x ∷ xs) take_back = omega (arith, length-without_last x xs)
  length-list_handle xs see_front = omega arith
  length-list_handle xs see_back = omega arith
  length-list_handle xs empty_out = omega arith
  length-list_handle xs measure = omega arith

  replies_from :
      (rs : List Request) (dq : Deque t) (xs : List Value)
      → AllCarry rs
      → length xs + length rs + 2 < sign_bit
      → Is dq xs
      → replies t dq rs ≡ ok (list_replies xs rs)
  unfolding replies
  replies_from [] dq xs c b i = refl
  replies_from (r ∷ rs) dq xs (c, cs) b i =
      let (dq', e, i') = answers dq xs r c (omega arith) i in
      let n = length-list_handle xs r in
      after_ok _ e
        (after_ok _ (replies_from rs dq' (list_handle xs r).1 cs (omega (arith, n)) i') refl)

  new_deque_lem :
      (s : t.Transaction) → ((key : Bytes) → laws.content s key ≡ none) → Is (new_deque t s) []
  new_deque_lem s e = (
    default_value,
    (λ i. none),
    (
      ((λ attr. (inr (e (spot_key attr), refl), small attr)), (λ i b. (e (get_index_key i), tt))),
      (λ y. cc),
      (λ y. cc),
    ),
    (omega arith, refl, omega arith, λ i b. refl),
  )

  -- A deque over an empty storage without failures answers every sequence of fewer than 2^63 - 2
  -- requests, whose values protobuf encodes, and its replies are those of the list of its elements:
  -- elements pushed at either end are peeked at and popped in their order, `Clear` empties it, and
  -- `Length` counts.
  pub replies-list_replies :
      (requests : List Request) (s : t.Transaction)
      → AllCarry requests
      → length requests + 2 < sign_bit
      → ((key : Bytes) → laws.content s key ≡ none)
      → replies t (new_deque t s) requests ≡ ok (list_replies [] requests)
  replies-list_replies requests s c b e =
      replies_from requests (new_deque t s) [] c (omega arith) (new_deque_lem s e)
