-- ===== src/Base/ByteOrder.antt =====
-- The laws of the byte order, and of its strict part that survives any suffix.
use octosql.Base.{
  ◌≡◌, refl, Bool, true, false, not, [], ◌∷◌, ◌++◌, arith, ltb, ◌==◌, Bytes, bytes_equal,
  bytes_less, IsBytes, if◌then◌else◌, map, ◌-◌,
}

pub bytes_less_irrefl : (xs : Bytes) → bytes_less xs xs ≡ false
bytes_less_irrefl [] = refl
bytes_less_irrefl (x ∷ xs) = ground (arith, bytes_less_irrefl xs)

pub bytes_less_trans :
    (xs ys zs : Bytes) → bytes_less xs ys ≡ true → bytes_less ys zs ≡ true → bytes_less xs zs ≡ true
bytes_less_trans [] ys (z ∷ zs) h k = refl
bytes_less_trans [] [] [] h k = h
bytes_less_trans [] (y ∷ ys) [] h k = k
bytes_less_trans (x ∷ xs) [] zs h k = cc
bytes_less_trans (x ∷ xs) (y ∷ ys) [] h k = cc
bytes_less_trans (x ∷ xs) (y ∷ ys) (z ∷ zs) h k = ground (arith, bytes_less_trans xs ys zs)

-- Of two byte strings that differ one is less, and not both.
pub bytes_less-swap :
    (xs ys : Bytes) → bytes_equal xs ys ≡ false → bytes_less ys xs ≡ not (bytes_less xs ys)
bytes_less-swap [] [] h = cc
bytes_less-swap [] (y ∷ ys) h = refl
bytes_less-swap (x ∷ xs) [] h = refl
bytes_less-swap (x ∷ xs) (y ∷ ys) h = ground (arith, bytes_less-swap xs ys)

pub bytes_equal_comm : (xs ys : Bytes) → bytes_equal xs ys ≡ bytes_equal ys xs
bytes_equal_comm [] [] = refl
bytes_equal_comm [] (y ∷ ys) = refl
bytes_equal_comm (x ∷ xs) [] = refl
bytes_equal_comm (x ∷ xs) (y ∷ ys) = ground (arith, bytes_equal_comm xs ys)

-- Less at a position that both strings have: neither is a prefix of the other.
abbrev pub bytes_below : Bytes → Bytes → Bool
bytes_below [] ys = false
bytes_below (x ∷ xs) [] = false
bytes_below (x ∷ xs) (y ∷ ys) =
    if ltb x y then true else if x == y then bytes_below xs ys else false

pub bytes_below-append :
    (xs ys s t : Bytes) → bytes_below xs ys ≡ true → bytes_below (xs ++ s) (ys ++ t) ≡ true
bytes_below-append [] ys s t h = cc
bytes_below-append (x ∷ xs) [] s t h = cc
bytes_below-append (x ∷ xs) (y ∷ ys) s t h = ground (arith, bytes_below-append xs ys s t)

pub bytes_below→less : (xs ys : Bytes) → bytes_below xs ys ≡ true → bytes_less xs ys ≡ true
bytes_below→less [] ys h = cc
bytes_below→less (x ∷ xs) [] h = cc
bytes_below→less (x ∷ xs) (y ∷ ys) h = ground (arith, bytes_below→less xs ys)

pub bytes_below-prepend :
    (p xs ys : Bytes) → bytes_below xs ys ≡ true → bytes_below (p ++ xs) (p ++ ys) ≡ true
bytes_below-prepend [] xs ys h = h
bytes_below-prepend (b ∷ p) xs ys h = ground (arith, bytes_below-prepend p xs ys h)

-- Complementing every byte turns the order round.
pub bytes_below-complement :
    (xs ys : Bytes)
    → IsBytes xs
    → IsBytes ys
    → bytes_below xs ys ≡ true
    → bytes_below (map (λ x. 255 - x) ys) (map (λ x. 255 - x) xs) ≡ true
bytes_below-complement [] ys h k lt = cc
bytes_below-complement (x ∷ xs) [] h k lt = cc
bytes_below-complement (x ∷ xs) (y ∷ ys) h k lt = ground (arith, bytes_below-complement xs ys)
