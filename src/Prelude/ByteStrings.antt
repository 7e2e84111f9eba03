-- ===== src/Prelude/ByteStrings.antt =====
-- Byte strings, and equality tests as instances. A Go `[]byte`, `[n]byte` or `string` is a list
-- of numbers: the bytes.
use Prim.Native.Nat.{ℕ}
use Prim.Native.Char.{code}
use Prim.Native.String.{String}
use mathlib.Core.Path.{◌≡◌, refl}
use mathlib.Core.Logic.{◌↔◌}
use mathlib.Core.Bool.{Bool, true, false, ◌&&◌}
use mathlib.Core.List.{List, [], ◌∷◌}
use native.Mathlib.Omega.{arith}
use gleipnir.Prelude.Tests.{nat_beq, nat_beq_iff}
use gleipnir.Prelude.Lists.{replicate}

abbrev pub Bytes : Type 0
Bytes = List ℕ

-- The bytes of an ASCII text.
abbrev pub codes : String → Bytes
codes String.[] = []
codes (String.◌∷◌ c s) = code c ∷ codes s

-- The zero value of `[n]byte`.
abbrev pub zero_bytes : ℕ → Bytes
zero_bytes n = replicate n 0

-- Go's `==` on a comparable type: a test that holds of a value and itself, and of no others.
pub record Eq {ℓ} (K : Type ℓ) : Type ℓ where
  pub test : K → K → Bool
  pub test_self : (x : K) → test x x ≡ true
  pub test_sound : (x y : K) → test x y ≡ true → x ≡ y

infix 50 ◌==◌
abbrev pub ◌==◌ {ℓ} : {K : Type ℓ} ⦃on : Eq K⦄ → K → K → Bool
◌==◌ ⦃on⦄ x y = on.test x y

pub nat_beq_self : (n : ℕ) → nat_beq n n ≡ true
nat_beq_self n = ground arith

instance abbrev pub nat_eq : Eq ℕ
nat_eq = record {
  test = nat_beq;
  test_self = nat_beq_self;
  test_sound = λ m n h. (nat_beq_iff m n).0 h;
}

-- `bytes.Equal`, and `==` on arrays and strings.
unfoldable pub bytes_beq : Bytes → Bytes → Bool
bytes_beq [] [] = true
bytes_beq [] (b ∷ bs) = false
bytes_beq (a ∷ as') [] = false
bytes_beq (a ∷ as') (b ∷ bs) = nat_beq a b && bytes_beq as' bs

pub bytes_beq_sound : (a b : Bytes) → bytes_beq a b ≡ true → a ≡ b
unfolding bytes_beq
bytes_beq_sound [] [] h = refl
bytes_beq_sound [] (b ∷ bs) h = ground arith
bytes_beq_sound (a ∷ as') [] h = ground arith
bytes_beq_sound (a ∷ as') (b ∷ bs) h = ground (arith, bytes_beq_sound as' bs)

pub bytes_beq_refl : (a : Bytes) → bytes_beq a a ≡ true
unfolding bytes_beq
bytes_beq_refl [] = refl
bytes_beq_refl (a ∷ as') = ground (arith, bytes_beq_refl as')

bytes_beq_complete : (a b : Bytes) → a ≡ b → bytes_beq a b ≡ true
bytes_beq_complete a b h = ground (arith, bytes_beq_refl a)

pub bytes_beq_iff : (a b : Bytes) → (bytes_beq a b ≡ true) ↔ (a ≡ b)
bytes_beq_iff a b = (bytes_beq_sound a b, bytes_beq_complete a b)

instance abbrev pub bytes_eq : Eq Bytes
bytes_eq = record { test = bytes_beq; test_self = bytes_beq_refl; test_sound = bytes_beq_sound }
