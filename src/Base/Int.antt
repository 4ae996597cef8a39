-- ===== src/Base/Int.antt =====
-- Python's integers over the native numbers.
use Prim.Native.Nat.{ℕ, zero, suc, ◌+◌, ◌-◌, ◌/◌}
use mathlib.Core.List.{List, [], ◌∷◌}
use mathlib.Core.Bool.{Bool, true, false, ◌&&◌}
use model_weaver.Base.Tests.{leb, if◌then◌else◌}

-- `negsuc n` is -(n + 1).
pub data ℤ : Type 0 where
  pos : ℕ → ℤ
  negsuc : ℕ → ℤ

abbrev pub pos_part : ℤ → ℕ
pos_part (pos n) = n
pos_part (negsuc n) = 0

abbrev pub neg_part : ℤ → ℕ
neg_part (pos n) = 0
neg_part (negsuc n) = suc n

abbrev pub sub_ℕ : ℕ → ℕ → ℤ
sub_ℕ a b = if leb b a then pos (a - b) else negsuc (b - a - 1)

infixl 65 ◌+ℤ◌
unfoldable pub ◌+ℤ◌ : ℤ → ℤ → ℤ
a +ℤ b = sub_ℕ (pos_part a + pos_part b) (neg_part a + neg_part b)

-- How far `b` lies above `a`, and 0 if it does not.
unfoldable pub distance : (a b : ℤ) → ℕ
distance a b = (pos_part b + neg_part a) - (neg_part b + pos_part a)

-- The count of members of a range of that length with steps of that size.
abbrev rounds_up : (length stride : ℕ) → ℕ
rounds_up length stride = (length + stride - 1) / stride

iterate : ℕ → ℤ → ℤ → List ℤ
unfolding ◌+ℤ◌
iterate zero a stride = []
iterate (suc n) a stride = a ∷ iterate n (a +ℤ stride) stride

-- list(range(start, end, stride)), for a stride other than 0
unfoldable pub range : (start end stride : ℤ) → List ℤ
unfolding iterate distance
range start end (pos n) = iterate (rounds_up (distance start end) n) start (pos n)
range start end (negsuc n) = iterate (rounds_up (distance end start) (suc n)) start (negsuc n)

-- a <= b
abbrev pub leb_int : ℤ → ℤ → Bool
leb_int (pos a) (pos b) = leb a b
leb_int (pos a) (negsuc b) = false
leb_int (negsuc a) (pos b) = true
leb_int (negsuc a) (negsuc b) = leb b a

abbrev pub eq_int : ℤ → ℤ → Bool
eq_int a b = leb_int a b && leb_int b a
