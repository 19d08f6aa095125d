-- ===== src/Common/Bits.antt =====
-- Masks of natural numbers, and the powers of two that the code generator tests for.
use Prim.Native.Nat.{bit_and, digits, bit_and-bitwise}
use native.Mathlib.Nat.{mod-lt, mod-add-div, mod-eq_of_lt, add-mul-mod_self_left}
use arrp.Common.{
  ℕ, zero, suc, ◌+◌, ◌-◌, ◌*◌, ◌/◌, ◌%◌, ◌^◌, ◌≤◌, ◌<◌, ◌≡◌, refl, sym, ap, ap₂, subst, ◌∙◌, ltb,
  if◌then◌else◌, min, arith,
}

-- `(int)std::log2(n)`, for n > 0, with as many rounds as n.
abbrev pub log2_rounds : ℕ → ℕ → ℕ
log2_rounds zero n = 0
log2_rounds (suc rounds) n =
    let rest = log2_rounds rounds (n / 2) in if ltb n 2 then 0 else suc rest

abbrev pub log2 : ℕ → ℕ
log2 n = log2_rounds n n

abbrev and_digits : ℕ → ℕ → ℕ → ℕ
and_digits count a b = digits (λ _. zero) min count a b

no_digits : (count a : ℕ) → and_digits count a 0 ≡ 0
no_digits zero a = refl
no_digits (suc count) zero = refl
no_digits (suc count) (suc a) = omega (arith, no_digits count (suc a / 2))

-- A remainder in two steps.
mod-two_steps : (a m : ℕ) → 0 < m → a / 2 % m * 2 + a % 2 ≡ a % (2 * m)
mod-two_steps a m positive =
    sym (mod-eq_of_lt small)
    ∙ sym (add-mul-mod_self_left (a / 2 % m * 2 + a % 2) (2 * m) (a / 2 / m))
    ∙ ap (λ k. k % (2 * m)) whole
  where
    small : a / 2 % m * 2 + a % 2 < 2 * m
    small = omega (arith, mod-lt (a / 2) positive)

    double : (x y z : ℕ) → y * 2 + x + 2 * m * z ≡ x + 2 * (y + m * z)
    double x y z = grind arith

    whole : a / 2 % m * 2 + a % 2 + 2 * m * (a / 2 / m) ≡ a
    whole =
        double (a % 2) (a / 2 % m) (a / 2 / m)
        ∙ ap (λ k. a % 2 + 2 * k) (mod-add-div (a / 2) m)
        ∙ mod-add-div a 2

pow-pos : (k : ℕ) → 0 < 2 ^ k
pow-pos zero = omega arith
pow-pos (suc k) = omega (arith, pow-pos k)

zero_rest : (m : ℕ) → 0 < m → 0 ≡ 0 % m
zero_rest m p = sym (mod-eq_of_lt p)

and_digits-mask : (count k a : ℕ) → a ≤ count → and_digits count a (2 ^ k - 1) ≡ a % 2 ^ k
and_digits-mask count zero a h = omega (arith, no_digits count a)
and_digits-mask zero (suc k) zero h = zero_rest (2 ^ suc k) (pow-pos (suc k))
and_digits-mask zero (suc k) (suc a) h = absurd (omega arith)
and_digits-mask (suc count) (suc k) zero h = zero_rest (2 ^ suc k) (pow-pos (suc k))
and_digits-mask (suc count) (suc k) (suc a) h =
    subst (λ m. and_digits (suc count) (suc a) (m - 1) ≡ suc a % m) (twice k)
      (step (2 ^ k) (pow-pos k) (and_digits-mask count k (suc a / 2) (omega arith)))
  where
    twice : (k : ℕ) → 2 * 2 ^ k ≡ 2 ^ suc k
    twice k = omega arith

    odd : (m : ℕ) → 0 < m → (2 * m - 1) % 2 ≡ 1
    odd m p = omega arith

    half : (m : ℕ) → 0 < m → (2 * m - 1) / 2 ≡ m - 1
    half m p = omega arith

    lowest : (n : ℕ) → min (n % 2) 1 ≡ n % 2
    lowest n = omega arith

    step :
        (m : ℕ)
        → 0 < m
        → and_digits count (suc a / 2) (m - 1) ≡ suc a / 2 % m
        → and_digits (suc count) (suc a) (2 * m - 1) ≡ suc a % (2 * m)
    step m p rest =
        ap₂ (λ x y. and_digits count (suc a / 2) y * 2 + min (suc a % 2) x) (odd m p) (half m p)
        ∙ ap₂ (λ x y. x * 2 + y) rest (lowest (suc a))
        ∙ mod-two_steps (suc a) m p

-- A mask of ones takes the remainder of a division by a power of two.
pub bit_and-mask : (k a : ℕ) → bit_and a (2 ^ k - 1) ≡ a % 2 ^ k
bit_and-mask k a = bit_and-bitwise a (2 ^ k - 1) ∙ and_digits-mask a k a (omega arith)
