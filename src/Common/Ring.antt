-- ===== src/Common/Ring.antt =====
-- Signed integers: the opposite, and the laws of the product.
use arrp.Common.{ℕ, ◌+◌, ◌*◌, ◌≡◌, ap, arith}
use arrp.Common.Int.{
  ℤ, pos, pos_part, neg_part, sub_ℕ, ◌+ℤ◌, ◌-ℤ◌, ◌*ℤ◌, +ℤ_parts, -ℤ_parts, eq_of_parts,
}

unfoldable pub opposite : ℤ → ℤ
unfolding ◌-ℤ◌
opposite a = pos 0 -ℤ a

pub opposite_parts :
    (a : ℤ) → pos_part (opposite a) + pos_part a ≡ neg_part (opposite a) + neg_part a
unfolding opposite ◌-ℤ◌
opposite_parts a = ground arith

sub_ℕ_parts : (a b : ℕ) → pos_part (sub_ℕ a b) + b ≡ neg_part (sub_ℕ a b) + a
sub_ℕ_parts a b = ground arith

pub *ℤ_parts :
    (a b : ℤ)
    → pos_part (a *ℤ b) + (pos_part a * neg_part b + neg_part a * pos_part b)
      ≡ neg_part (a *ℤ b) + (pos_part a * pos_part b + neg_part a * neg_part b)
unfolding ◌*ℤ◌
*ℤ_parts a b =
    sub_ℕ_parts (pos_part a * pos_part b + neg_part a * neg_part b)
      (pos_part a * neg_part b + neg_part a * pos_part b)

pub add_mul : (a b c : ℤ) → (a +ℤ b) *ℤ c ≡ a *ℤ c +ℤ b *ℤ c
add_mul a b c = eq_of_parts _ _ (
    omega (
      arith,
      *ℤ_parts (a +ℤ b) c,
      *ℤ_parts a c,
      *ℤ_parts b c,
      +ℤ_parts (a *ℤ c) (b *ℤ c),
      ap (λ (t : ℕ). t * pos_part c) (+ℤ_parts a b),
      ap (λ (t : ℕ). t * neg_part c) (+ℤ_parts a b),
    ))

pub mul_comm : (a b : ℤ) → a *ℤ b ≡ b *ℤ a
mul_comm a b = eq_of_parts _ _ (omega (arith, *ℤ_parts a b, *ℤ_parts b a))

pub mul_one : (a : ℤ) → a *ℤ pos 1 ≡ a
mul_one a = eq_of_parts _ _ (omega (arith, *ℤ_parts a (pos 1)))

pub mul_right_comm : (a b c : ℤ) → a *ℤ b *ℤ c ≡ a *ℤ c *ℤ b
mul_right_comm a b c = eq_of_parts _ _ (
    omega (
      arith,
      *ℤ_parts (a *ℤ b) c,
      *ℤ_parts (a *ℤ c) b,
      ap (λ (t : ℕ). t * pos_part c) (*ℤ_parts a b),
      ap (λ (t : ℕ). t * neg_part c) (*ℤ_parts a b),
      ap (λ (t : ℕ). t * pos_part b) (*ℤ_parts a c),
      ap (λ (t : ℕ). t * neg_part b) (*ℤ_parts a c),
    ))

pub opposite_mul : (a b : ℤ) → opposite a *ℤ b ≡ opposite (a *ℤ b)
opposite_mul a b = eq_of_parts _ _ (
    omega (
      arith,
      *ℤ_parts (opposite a) b,
      *ℤ_parts a b,
      opposite_parts (a *ℤ b),
      ap (λ (t : ℕ). t * pos_part b) (opposite_parts a),
      ap (λ (t : ℕ). t * neg_part b) (opposite_parts a),
    ))

pub opposite_add : (a b : ℤ) → opposite (a +ℤ b) ≡ opposite a +ℤ opposite b
opposite_add a b = eq_of_parts _ _ (
    omega (
      arith,
      opposite_parts (a +ℤ b),
      opposite_parts a,
      opposite_parts b,
      +ℤ_parts a b,
      +ℤ_parts (opposite a) (opposite b),
    ))

pub add_opposite : (a b : ℤ) → a +ℤ opposite b ≡ a -ℤ b
add_opposite a b =
    eq_of_parts _ _ (omega (arith, opposite_parts b, +ℤ_parts a (opposite b), -ℤ_parts a b))

-- Sums of four, regrouped.
pub add_add_comm : (a b c d : ℤ) → a +ℤ b +ℤ (c +ℤ d) ≡ a +ℤ c +ℤ (b +ℤ d)
add_add_comm a b c d = eq_of_parts _ _ (
    omega (
      arith,
      +ℤ_parts a b,
      +ℤ_parts c d,
      +ℤ_parts (a +ℤ b) (c +ℤ d),
      +ℤ_parts a c,
      +ℤ_parts b d,
      +ℤ_parts (a +ℤ c) (b +ℤ d),
    ))
