-- ===== src/Execution/OrderBy/Runs.antt =====
-- What the store of order_by.go holds after a run over some records.
use octosql.Base.{
  ℕ, suc, ◌+◌, ◌<◌, Bool, not, ◌&&◌, List, [], ◌∷◌, Bytes, ok, ◌≡◌, refl, bytes_equal, arith,
  length, after_ok, ap, ◌∙◌,
}
use octosql.Base.Int.{sign_bit}
use octosql.Execution.Records.{Record}
use octosql.Execution.OrderBy.{OrderStorage, OrderLibraries, OrderExpression, run_ordered}
use octosql.Execution.OrderBy.Entries.{OrderLaws}
use octosql.Execution.OrderBy.Firsts.{entries_after}
use octosql.Execution.OrderBy.Counted.{
  one, added, undone, HaveKeys, Tallied, Tallied-of_eq, more, add_ordered_lem,
}

-- One record more is one more of some key.
more_bound :
    (x b : Bool) (a u n : ℕ)
    → a + u + suc n < sign_bit
    → one (x && not b) + a + (one (x && b) + u) + n < sign_bit
more_bound x b a u n h = ground arith

module _ (lib : OrderLibraries) (expressions : List OrderExpression) (o : OrderStorage)
    (laws : OrderLaws o) where
  abbrev pub Kept : o.OrderState → (Bytes → ℕ) → (Bytes → ℕ) → Type 0
  Kept = Tallied lib expressions o laws

  pub run_ordered_lem :
      (rs : List Record) (s : o.OrderState) (a u : Bytes → ℕ)
      → HaveKeys lib expressions rs
      → Kept s a u
      → ((k : Bytes) → a k + u k + length rs < sign_bit)
      → (s' : o.OrderState) × (run_ordered lib expressions o s rs ≡ ok s')
        × Kept s' (λ k. added lib expressions rs k + a k) (λ k. undone lib expressions rs k + u k)
        × (laws.entries s' ≡ entries_after lib expressions rs (laws.entries s))
  unfolding run_ordered
  run_ordered_lem [] s a u h t b = (
    s,
    refl,
    Tallied-of_eq lib expressions o laws a u (λ k. 0 + a k) (λ k. 0 + u k) (λ k. omega arith)
        (λ k. omega arith) t,
    refl,
  )
  run_ordered_lem (r ∷ rs) s a u ((j, key), h) t b =
      let now : a j + u j < sign_bit = omega (arith, b j) in
      let (s1, e1, t1, n1) = add_ordered_lem lib expressions o laws s a u r j key t now in
      let a1 = more j (not r.metadata.undo) a in
      let u1 = more j r.metadata.undo u in
      let (s2, e2, t2, n2) =
        run_ordered_lem rs s1 a1 u1 h t1
          (λ k. more_bound (bytes_equal j k) r.metadata.undo (a k) (u k) (length rs) (b k)) in
      (
        s2,
        after_ok _ e1 e2,
        Tallied-of_eq lib expressions o laws (λ k. added lib expressions rs k + a1 k)
            (λ k. undone lib expressions rs k + u1 k) (λ k. added lib expressions (r ∷ rs) k + a k)
            (λ k. undone lib expressions (r ∷ rs) k + u k) (λ k. rw key (omega arith))
            (λ k. rw key (omega arith)) t2,
        n2 ∙ ap (entries_after lib expressions rs) (n1 ∙ (rw key refl)),
      )
