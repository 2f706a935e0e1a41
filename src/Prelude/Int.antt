-- ===== src/Prelude/Int.antt =====
-- The `int` of the source, as an integer in the range of 32 bits, and its machine word.
use Prim.Native.Nat.{ℕ, zero, suc, ◌+◌, ◌-◌, ◌%◌, ◌^◌, ◌<◌}
use mathlib.Core.Path.{◌≡◌}
use mathlib.Core.Logic.{◌↔◌, ◌≢◌, inl, inr}
use mathlib.Core.Bool.{Bool, true, false}
use native.Mathlib.Omega.{arith}
use geck.Prelude.Tests.{ltb, ◌==◌, if◌then◌else◌, Bool-cases}

-- `negsuc n` is -(n + 1).
pub data ℤ : Type 0 where
  pos : ℕ → ℤ
  negsuc : ℕ → ℤ

abbrev pub eqb_ℤ : ℤ → ℤ → Bool
eqb_ℤ (pos m) (pos n) = m == n
eqb_ℤ (negsuc m) (negsuc n) = m == n
eqb_ℤ (pos m) (negsuc n) = false
eqb_ℤ (negsuc m) (pos n) = false

pub eqb_ℤ_iff : (a b : ℤ) → (eqb_ℤ a b ≡ true) ↔ (a ≡ b)
eqb_ℤ_iff (pos m) (pos n) = ground arith
eqb_ℤ_iff (negsuc m) (negsuc n) = ground arith
eqb_ℤ_iff (pos m) (negsuc n) = ground arith
eqb_ℤ_iff (negsuc m) (pos n) = ground arith

-- a < b, on integers.
abbrev pub ltb_ℤ : ℤ → ℤ → Bool
ltb_ℤ (pos m) (pos n) = ltb m n
ltb_ℤ (negsuc m) (negsuc n) = ltb n m
ltb_ℤ (pos m) (negsuc n) = false
ltb_ℤ (negsuc m) (pos n) = true

-- The values that an `int` of 32 bits holds.
abbrev pub IsInt : ℤ → Type 0
IsInt (pos n) = n < 2 ^ 31
IsInt (negsuc n) = n < 2 ^ 31

abbrev pub IsU32 : ℕ → Type 0
IsU32 n = n < 2 ^ 32

-- The two's complement word of an integer, and the `int` that a word stands for.
abbrev pub word : ℤ → ℕ
word (pos n) = n % 2 ^ 32
word (negsuc n) = 2 ^ 32 - 1 - n % 2 ^ 32

abbrev pub signed : ℕ → ℤ
signed w = if ltb w (2 ^ 31) then pos w else negsuc (2 ^ 32 - 1 - w)

pub signed-word : (z : ℤ) → IsInt z → signed (word z) ≡ z
signed-word (pos n) h = ground arith
signed-word (negsuc n) h = ground arith

pub word-signed : (w : ℕ) → IsU32 w → word (signed w) ≡ w
word-signed w h = ground arith

pub word-lt : (z : ℤ) → IsU32 (word z)
word-lt (pos n) = omega arith
word-lt (negsuc n) = omega arith

-- -n, as an integer.
abbrev pub negated : ℕ → ℤ
negated zero = pos 0
negated (suc n) = negsuc n

-- a + b on integers
abbrev pub add_int : ℤ → ℤ → ℤ
add_int (pos a) (pos b) = pos (a + b)
add_int (pos a) (negsuc b) = if ltb b a then pos (a - suc b) else negsuc (b - a)
add_int (negsuc a) (pos b) = if ltb a b then pos (b - suc a) else negsuc (a - b)
add_int (negsuc a) (negsuc b) = negsuc (suc (a + b))

pub eqb_ℤ_ne : (a b : ℤ) → a ≢ b → eqb_ℤ a b ≡ false
eqb_ℤ_ne a b h = elim (Bool-cases (eqb_ℤ a b)) [
  | inl same ↦ absurd (h ((eqb_ℤ_iff a b).0 same))
  | inr other ↦ other
]

pub pos_same : {m n : ℕ} → pos m ≡ pos n → m ≡ n
pos_same e = cc
