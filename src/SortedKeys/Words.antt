-- ===== src/SortedKeys/Words.antt =====
-- The 64-bit words of sorted_keys.go: `encoding/binary`'s big-endian bytes and the two exclusive
-- ors, of the sign bit and of all bits.
use octosql.Base.{
  ℕ, zero, suc, ◌+◌, ◌*◌, ◌/◌, ◌%◌, ◌^◌, ◌≤◌, ◌<◌, length, ◌≡◌, refl, ap, true, [], ◌∷◌, ◌++◌,
  arith, Bytes, IsBytes, Outcome, ok, panic,
}
use octosql.Base.Int.{word_mod}
use octosql.Base.ByteOrder.{bytes_below}

-- The low `n` bytes of a number, the highest first.
abbrev low_bytes : ℕ → ℕ → Bytes
low_bytes zero w = []
low_bytes (suc n) w = (w / 256 ^ n % 256) ∷ low_bytes n w

-- `binary.BigEndian.PutUint64`.
unfoldable pub put_uint64 : ℕ → Bytes
put_uint64 w = low_bytes 8 w

-- `binary.BigEndian.Uint64`, which panics on fewer than eight bytes.
unfoldable pub uint64 : Bytes → Outcome ℕ
uint64 (a ∷ b ∷ c ∷ d ∷ e ∷ f ∷ g ∷ h ∷ _) =
    ok (a * 2 ^ 56 + b * 2 ^ 48 + c * 2 ^ 40 + d * 2 ^ 32 + e * 2 ^ 24 + f * 2 ^ 16 + g * 2 ^ 8 + h)
uint64 _ = panic

pub IsBytes-put_uint64 : (w : ℕ) → w < word_mod → IsBytes (put_uint64 w)
unfolding put_uint64
IsBytes-put_uint64 w h = omega arith

pub uint64-put_uint64 : (w : ℕ) (rest : Bytes) → w < word_mod → uint64 (put_uint64 w ++ rest) ≡ ok w
unfolding put_uint64 uint64
uint64-put_uint64 w rest h = ap ok (omega arith)

-- One byte decides, or leaves it to those after it.
below_step :
    (n x y : ℕ)
    → x / 256 ^ n % 256 ≤ y / 256 ^ n % 256
    → (x / 256 ^ n % 256 ≡ y / 256 ^ n % 256 → bytes_below (low_bytes n x) (low_bytes n y) ≡ true)
    → bytes_below (low_bytes (suc n) x) (low_bytes (suc n) y) ≡ true
below_step n x y h next = ground (arith, next)

pub put_uint64-below :
    (x y : ℕ) → y < word_mod → x < y → bytes_below (put_uint64 x) (put_uint64 y) ≡ true
unfolding put_uint64
put_uint64-below x y h lt = below_step 7 x y (omega arith) λ e7.
    below_step 6 x y (omega arith) λ e6. below_step 5 x y (omega arith) λ e5.
      below_step 4 x y (omega arith) λ e4. below_step 3 x y (omega arith) λ e3.
        below_step 2 x y (omega arith) λ e2.
          below_step 1 x y (omega arith)
            λ e1. below_step 0 x y (omega arith) λ e0. absurd (omega arith)

pub uint64-put_uint64_alone : (w : ℕ) → w < word_mod → uint64 (put_uint64 w) ≡ ok w
unfolding put_uint64 uint64
uint64-put_uint64_alone w h = ap ok (omega arith)

pub length-put_uint64 : (w : ℕ) → length (put_uint64 w) ≡ 8
unfolding put_uint64
length-put_uint64 w = refl
