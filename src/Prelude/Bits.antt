-- ===== src/Prelude/Bits.antt =====
-- Bits of a byte string: bit `i` is bit `i % 8` of byte `i / 8`, the least significant first.
use Prim.Native.Nat.{ℕ, zero, suc, ◌+◌, ◌*◌, ◌/◌, ◌%◌, ◌<◌}
use mathlib.Core.Path.{◌≡◌, refl}
use mathlib.Core.Bool.{Bool, true, false}
use mathlib.Core.List.{[], ◌∷◌}
use native.Mathlib.Omega.{arith}
use gleipnir.Prelude.Tests.{nat_beq, if◌then◌else◌}
use gleipnir.Prelude.Lists.{length, set, length-set}
use gleipnir.Prelude.ByteStrings.{Bytes, zero_bytes}

-- x >> k
unfoldable pub shr : ℕ → ℕ → ℕ
shr x zero = x
shr x (suc k) = shr (x / 2) k

-- 1 << k
unfoldable pub shl_one : ℕ → ℕ
shl_one zero = 1
shl_one (suc k) = 2 * shl_one k

-- x & (1 << k) != 0
unfoldable pub test_bit : ℕ → ℕ → Bool
unfolding shr
test_bit x k = nat_beq (shr x k % 2) 1

-- x | (1 << k)
unfoldable pub or_bit : ℕ → ℕ → ℕ
unfolding test_bit shl_one
or_bit x k = if test_bit x k then x else x + shl_one k

test_bit-add :
    (k x j : ℕ)
    → test_bit x k ≡ false
    → test_bit (x + shl_one k) j ≡ (if nat_beq k j then true else test_bit x j)
unfolding test_bit shl_one shr
test_bit-add zero x zero h = ground arith
test_bit-add zero x (suc j) h = let e : (x + 1) / 2 ≡ x / 2 = ground arith in rw e (ground arith)
test_bit-add (suc k) x zero h = ground arith
test_bit-add (suc k) x (suc j) h =
    let e : (x + 2 * shl_one k) / 2 ≡ x / 2 + shl_one k = omega arith in
    rw e (ground (arith, test_bit-add k (x / 2) j h))

-- Setting one bit sets that bit and leaves the others.
pub test_bit-or_bit :
    (x k j : ℕ) → test_bit (or_bit x k) j ≡ (if nat_beq k j then true else test_bit x j)
unfolding or_bit
test_bit-or_bit x k j = ground (arith, test_bit-add k x j)

-- The byte at an index that the code has checked to be in range.
abbrev pub byte_at : Bytes → ℕ → ℕ
byte_at [] i = 0
byte_at (b ∷ bs) zero = b
byte_at (b ∷ bs) (suc i) = byte_at bs i

-- bitmap[i/8] & (1 << (i%8)) != 0, for i/8 < len(bitmap).
unfoldable pub bitmap_bit : Bytes → ℕ → Bool
bitmap_bit bitmap i = test_bit (byte_at bitmap (i / 8)) (i % 8)

-- bitmap[i/8] |= 1 << (i%8), for i/8 < len(bitmap).
unfoldable pub bitmap_set : Bytes → ℕ → Bytes
bitmap_set bitmap i = set bitmap (i / 8) (or_bit (byte_at bitmap (i / 8)) (i % 8))

byte_at-set :
    (bs : Bytes) (i j v : ℕ)
    → i < length bs
    → byte_at (set bs i v) j ≡ (if nat_beq i j then v else byte_at bs j)
byte_at-set [] i j v h = absurd (omega arith)
byte_at-set (b ∷ bs) zero zero v h = refl
byte_at-set (b ∷ bs) zero (suc j) v h = ground arith
byte_at-set (b ∷ bs) (suc i) zero v h = ground arith
byte_at-set (b ∷ bs) (suc i) (suc j) v h = ground (arith, byte_at-set bs i j v (omega arith))

pub bitmap_bit-set :
    (bm : Bytes) (i j : ℕ)
    → i / 8 < length bm
    → bitmap_bit (bitmap_set bm i) j ≡ (if nat_beq i j then true else bitmap_bit bm j)
unfolding bitmap_bit bitmap_set
bitmap_bit-set bm i j h =
    rw (byte_at-set bm (i / 8) (j / 8) (or_bit (byte_at bm (i / 8)) (i % 8)) h)
      (ground (arith, test_bit-or_bit (byte_at bm (i / 8)) (i % 8) (j % 8)))

shr-zero : (k : ℕ) → shr 0 k ≡ 0
unfolding shr
shr-zero zero = refl
shr-zero (suc k) = shr-zero k

pub test_bit-zero : (k : ℕ) → test_bit 0 k ≡ false
unfolding test_bit
test_bit-zero k = rw (shr-zero k)

byte_at-zero_bytes : (n i : ℕ) → byte_at (zero_bytes n) i ≡ 0
byte_at-zero_bytes zero i = refl
byte_at-zero_bytes (suc n) zero = refl
byte_at-zero_bytes (suc n) (suc i) = byte_at-zero_bytes n i

pub bitmap_bit-zero_bytes : (n i : ℕ) → bitmap_bit (zero_bytes n) i ≡ false
unfolding bitmap_bit
bitmap_bit-zero_bytes n i = rw (byte_at-zero_bytes n (i / 8)) (test_bit-zero (i % 8))

pub length-bitmap_set : (bm : Bytes) (i : ℕ) → length (bitmap_set bm i) ≡ length bm
unfolding bitmap_set
length-bitmap_set bm i = length-set bm (i / 8) _
