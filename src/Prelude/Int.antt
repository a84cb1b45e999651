-- ===== src/Prelude/Int.antt =====
-- Go's `int`, `int64` and `time.Duration`: a 64-bit signed integer, with its wrap-around.
use Prim.Native.Nat.{ℕ, zero, suc, ◌+◌, ◌-◌, ◌%◌, ◌^◌, ◌≤◌}
use mathlib.Core.Path.{◌≡◌, refl}
use mathlib.Core.Bool.{Bool, true, false}
use native.Mathlib.Omega.{arith}
use interactive_paxos.Prelude.Tests.{ltb, leb, ◌==◌, if◌then◌else◌}

-- `negsuc n` is -(n + 1).
pub data ℤ : Type 0 where
  pos : ℕ → ℤ
  negsuc : ℕ → ℤ

abbrev pub ltb_ℤ : ℤ → ℤ → Bool
ltb_ℤ (pos a) (pos b) = ltb a b
ltb_ℤ (pos a) (negsuc b) = false
ltb_ℤ (negsuc a) (pos b) = true
ltb_ℤ (negsuc a) (negsuc b) = ltb b a

abbrev pub leb_ℤ : ℤ → ℤ → Bool
leb_ℤ (pos a) (pos b) = leb a b
leb_ℤ (pos a) (negsuc b) = false
leb_ℤ (negsuc a) (pos b) = true
leb_ℤ (negsuc a) (negsuc b) = leb b a

abbrev pub eqb_ℤ : ℤ → ℤ → Bool
eqb_ℤ (pos a) (pos b) = a == b
eqb_ℤ (pos a) (negsuc b) = false
eqb_ℤ (negsuc a) (pos b) = false
eqb_ℤ (negsuc a) (negsuc b) = a == b

-- math.MaxInt64
abbrev pub max_int : ℕ
max_int = 2 ^ 63 - 1

-- What a 64-bit register keeps of an integer.
unfoldable pub wrap_int : ℤ → ℤ
wrap_int (pos n) = let m = n % 2 ^ 64 in if ltb m (2 ^ 63) then pos m else negsuc (2 ^ 64 - 1 - m)
wrap_int (negsuc n) =
    let m = n % 2 ^ 64 in if ltb m (2 ^ 63) then negsuc m else pos (2 ^ 64 - 1 - m)

-- a - b, as an integer.
abbrev pub sub_ℕ : ℕ → ℕ → ℤ
sub_ℕ a b = if leb b a then pos (a - b) else negsuc (b - a - 1)

infixl 65 ◌+ℤ◌
abbrev pub ◌+ℤ◌ : ℤ → ℤ → ℤ
pos a +ℤ pos b = pos (a + b)
pos a +ℤ negsuc b = sub_ℕ a (suc b)
negsuc a +ℤ pos b = sub_ℕ b (suc a)
negsuc a +ℤ negsuc b = negsuc (a + b + 1)

-- `a + b` as the machine computes it.
unfoldable pub add_int : ℤ → ℤ → ℤ
unfolding wrap_int
add_int a b = wrap_int (a +ℤ b)

-- `a - b` as the machine computes it.
abbrev pub neg_ℤ : ℤ → ℤ
neg_ℤ (pos zero) = pos 0
neg_ℤ (pos (suc n)) = negsuc n
neg_ℤ (negsuc n) = pos (suc n)

unfoldable pub sub_int : ℤ → ℤ → ℤ
unfolding wrap_int
sub_int a b = wrap_int (a +ℤ neg_ℤ b)

-- Below the largest integer, `n + 1` does not wrap.
pub add_int-pos : (n m : ℕ) → n + m ≤ max_int → add_int (pos n) (pos m) ≡ pos (n + m)
unfolding add_int
add_int-pos n m h = ground arith

-- At the largest integer it does.
add_int_overflow : add_int (pos max_int) (pos 1) ≡ negsuc max_int
unfolding add_int
add_int_overflow = refl

-- Between numbers that are in order, subtraction does not wrap.
pub sub_int-pos : (a b : ℕ) → b ≤ a → a ≤ max_int → sub_int (pos a) (pos b) ≡ pos (a - b)
unfolding sub_int
sub_int-pos a zero h small = ground arith
sub_int-pos a (suc b) h small = ground arith
