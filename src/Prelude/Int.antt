-- ===== src/Prelude/Int.antt =====
-- Signed integers over the native numbers, under the library's names (its ℤ stands on the unary ℕ).
use Prim.Native.Nat.{ℕ, suc, ◌+◌, ◌-◌, ◌*◌, ◌/◌, ◌≤◌, ◌<◌}
use mathlib.Core.Path.{◌≡◌}
use mathlib.Core.Logic.{◌⊎◌, inl, inr}
use mathlib.Core.Bool.{Bool, true, false}
use native.Mathlib.Omega.{arith}
use rainbow_bridge.Prelude.Tests.{ltb, leb, if◌then◌else◌}

-- `negsuc n` is -(n + 1).
pub data ℤ : Type 0 where
  pos : ℕ → ℤ
  negsuc : ℕ → ℤ

abbrev pub pos_part : ℤ → ℕ
pos_part (pos n) = n
pos_part (negsuc n) = 0

abbrev pub neg_part : ℤ → ℕ
neg_part (pos n) = 0
neg_part (negsuc n) = suc n

abbrev pub sub_ℕ : ℕ → ℕ → ℤ
sub_ℕ a b = if leb b a then pos (a - b) else negsuc (b - a - 1)

infixl 65 ◌+ℤ◌ ◌-ℤ◌
infix 50 ◌≤ℤ◌ ◌<ℤ◌
unfoldable pub ◌+ℤ◌ : ℤ → ℤ → ℤ
a +ℤ b = sub_ℕ (pos_part a + pos_part b) (neg_part a + neg_part b)

unfoldable pub ◌-ℤ◌ : ℤ → ℤ → ℤ
a -ℤ b = sub_ℕ (pos_part a + neg_part b) (neg_part a + pos_part b)

abbrev pub ◌≤ℤ◌ : ℤ → ℤ → Type 0
a ≤ℤ b = pos_part a + neg_part b ≤ pos_part b + neg_part a

abbrev pub ◌<ℤ◌ : ℤ → ℤ → Type 0
a <ℤ b = pos_part a + neg_part b < pos_part b + neg_part a

abbrev pub ltb_ℤ : ℤ → ℤ → Bool
ltb_ℤ a b = ltb (pos_part a + neg_part b) (pos_part b + neg_part a)

-- `Math.min`, `Math.max`.
unfoldable pub min_ℤ : ℤ → ℤ → ℤ
min_ℤ a b = if ltb_ℤ a b then a else b

unfoldable pub max_ℤ : ℤ → ℤ → ℤ
max_ℤ a b = if ltb_ℤ a b then b else a

-- `Math.floor(a / 2)`.
unfoldable pub half_ℤ : ℤ → ℤ
half_ℤ (pos n) = pos (n / 2)
half_ℤ (negsuc n) = negsuc (n / 2)

-- Division by a natural number that drops the fraction, towards 0.
unfoldable pub trunc_div : ℤ → ℕ → ℤ
trunc_div (pos n) d = pos (n / d)
trunc_div (negsuc n) d = sub_ℕ 0 (suc n / d)

-- One lemma for each operation lets `omega` work with the operations shut, at any depth.
pub +ℤ_parts :
    (a b : ℤ)
    → pos_part (a +ℤ b) + neg_part a + neg_part b ≡ neg_part (a +ℤ b) + pos_part a + pos_part b
unfolding ◌+ℤ◌
+ℤ_parts a b = ground arith

pub -ℤ_parts :
    (a b : ℤ)
    → pos_part (a -ℤ b) + neg_part a + pos_part b ≡ neg_part (a -ℤ b) + pos_part a + neg_part b
unfolding ◌-ℤ◌
-ℤ_parts a b = ground arith

pub eq_of_parts : (a b : ℤ) → pos_part a + neg_part b ≡ pos_part b + neg_part a → a ≡ b
eq_of_parts a b h = ground arith

pub parts_disjoint : (a : ℤ) → (pos_part a ≡ 0) ⊎ (neg_part a ≡ 0)
parts_disjoint (pos n) = inr (omega arith)
parts_disjoint (negsuc n) = inl (omega arith)

-- Twice the half is the integer or one less.
pub half_ℤ_le :
    (a : ℤ) → 2 * pos_part (half_ℤ a) + neg_part a ≤ 2 * neg_part (half_ℤ a) + pos_part a
unfolding half_ℤ
half_ℤ_le (pos n) = omega arith
half_ℤ_le (negsuc n) = omega arith

pub half_ℤ_ge :
    (a : ℤ) → 2 * neg_part (half_ℤ a) + pos_part a ≤ 2 * pos_part (half_ℤ a) + neg_part a + 1
unfolding half_ℤ
half_ℤ_ge (pos n) = omega arith
half_ℤ_ge (negsuc n) = omega arith

pub ltb_ℤ→lt : (a b : ℤ) → ltb_ℤ a b ≡ true → a <ℤ b
ltb_ℤ→lt a b h = ground arith

pub ltb_ℤ→le : (a b : ℤ) → ltb_ℤ a b ≡ false → b ≤ℤ a
ltb_ℤ→le a b h = ground arith

pub ruleset int_laws = (arith, +ℤ_parts, -ℤ_parts, eq_of_parts, half_ℤ_le, half_ℤ_ge)

pub le→ltb_ℤ : (a b : ℤ) → b ≤ℤ a → ltb_ℤ a b ≡ false
le→ltb_ℤ a b h = ground arith

pub lt→ltb_ℤ : (a b : ℤ) → a <ℤ b → ltb_ℤ a b ≡ true
lt→ltb_ℤ a b h = ground arith

-- A range shrinks when its low end goes up, or its high end down.
pub gap_low : (lo m hi : ℤ) → lo ≤ℤ m → pos_part (hi -ℤ m) ≤ pos_part (hi -ℤ lo)
gap_low lo m hi h = omega (int_laws, parts_disjoint (hi -ℤ m))

pub gap_high : (lo m hi : ℤ) → m ≤ℤ hi → pos_part (m -ℤ lo) ≤ pos_part (hi -ℤ lo)
gap_high lo m hi h = omega (int_laws, parts_disjoint (m -ℤ lo))

pub le-max_left : (a b : ℤ) → a ≤ℤ max_ℤ a b
unfolding max_ℤ
le-max_left a b = ground arith

pub min-le_left : (a b : ℤ) → min_ℤ a b ≤ℤ a
unfolding min_ℤ
min-le_left a b = ground arith

pub max-cases : (a b : ℤ) → (max_ℤ a b ≡ a) ⊎ ((max_ℤ a b ≡ b) × (a <ℤ b))
unfolding max_ℤ
max-cases a b = ground arith

pub min-cases : (a b : ℤ) → (min_ℤ a b ≡ b) ⊎ ((min_ℤ a b ≡ a) × (a <ℤ b))
unfolding min_ℤ
min-cases a b = ground arith

pub le-max_right : (a b : ℤ) → b ≤ℤ max_ℤ a b
unfolding max_ℤ
le-max_right a b = ground arith

pub min-le_right : (a b : ℤ) → min_ℤ a b ≤ℤ b
unfolding min_ℤ
min-le_right a b = ground arith

pub max_mono : (a b c : ℤ) → a ≤ℤ b → max_ℤ a c ≤ℤ max_ℤ b c
unfolding max_ℤ
max_mono a b c h = ground arith
