-- ===== src/Common/Text.antt =====
-- Texts as the lists of their bytes, and decimal numbers: `std::to_string`, and `<<` of an integer.
use Prim.Native.Char.{code}
use Prim.Native.String.{String}
use arrp.Common.{
  ℕ, zero, suc, ◌+◌, ◌*◌, ◌-◌, ◌/◌, ◌%◌, ◌<◌, ◌≤◌, ◌≡◌, ◌↔◌, refl, sym, ap, ap₂, ◌∙◌, inl, inr,
  Bool, true, false, ◌==◌, ==_iff, ◌&&◌, if◌then◌else◌, Bool-cases, List, [], ◌∷◌, arith,
}

abbrev pub Text : Type 0
Text = List ℕ

abbrev pub codes : String → Text
codes String.[] = []
codes (String.◌∷◌ c s) = code c ∷ codes s

-- `==` of two strings.
unfoldable pub same_text : Text → Text → Bool
same_text [] [] = true
same_text (c ∷ cs) (d ∷ ds) = c == d && same_text cs ds
same_text _ _ = false

same_text_sound : (s t : Text) → same_text s t ≡ true → s ≡ t
unfolding same_text
same_text_sound [] [] h = refl
same_text_sound (c ∷ cs) (d ∷ ds) h = ap₂ ◌∷◌ (ground arith) (same_text_sound cs ds (ground arith))
same_text_sound [] (d ∷ ds) h = cc
same_text_sound (c ∷ cs) [] h = cc

same_text_refl : (s : Text) → same_text s s ≡ true
unfolding same_text
same_text_refl [] = refl
same_text_refl (c ∷ cs) = ground (arith, same_text_refl cs)

pub same_text_iff : (s t : Text) → (same_text s t ≡ true) ↔ (s ≡ t)
same_text_iff s t = (same_text_sound s t, λ e. rw (← e) (same_text_refl s))

-- A decimal digit.
abbrev pub IsDigit : ℕ → Type 0
IsDigit c = (48 ≤ c) × (c ≤ 57)

abbrev pub AllDigits : Text → Type 0
AllDigits [] = Unit
AllDigits (c ∷ cs) = IsDigit c × AllDigits cs

-- The digits of a number before those that are there already; fuel above the number is enough.
unfoldable show_on : ℕ → ℕ → Text → Text
show_on zero n behind = behind
show_on (suc fuel) n behind =
    let digits = (48 + n % 10) ∷ behind in
    let rest = show_on fuel (n / 10) digits in if n / 10 == 0 then digits else rest

unfoldable pub to_string : ℕ → Text
unfolding show_on
to_string n = show_on (suc n) n []

-- The number that digits stand for, behind those that stand for `v`.
abbrev read_on : Text → ℕ → ℕ
read_on [] v = v
read_on (c ∷ cs) v = read_on cs (v * 10 + (c - 48))

read_on-show_on :
    (fuel n : ℕ) (behind : Text) → n < fuel → read_on (show_on fuel n behind) 0 ≡ read_on behind n
unfolding show_on
read_on-show_on zero n behind h = absurd (omega arith)
read_on-show_on (suc fuel) n behind h = elim (Bool-cases (n / 10 == 0)) [
  | inl e ↦ rw e (ap (read_on behind) (last ((==_iff (n / 10) 0).0 e)))
  | inr e ↦
      rw e (
        read_on-show_on fuel (n / 10) ((48 + n % 10) ∷ behind) (smaller e)
        ∙ ap (read_on behind) all)
]
  where
    last : n / 10 ≡ 0 → 0 * 10 + (48 + n % 10 - 48) ≡ n
    last q = omega arith

    all : n / 10 * 10 + (48 + n % 10 - 48) ≡ n
    all = omega arith

    smaller : (n / 10 == 0) ≡ false → n / 10 < fuel
    smaller e = ground arith

pub to_string-injective : (m n : ℕ) → to_string m ≡ to_string n → m ≡ n
unfolding to_string
to_string-injective m n h =
    sym (read_on-show_on (suc m) m [] (omega arith))
    ∙ ap (λ s. read_on s 0) h
    ∙ read_on-show_on (suc n) n [] (omega arith)

show_on-AllDigits :
    (fuel n : ℕ) (behind : Text) → AllDigits behind → AllDigits (show_on fuel n behind)
unfolding show_on
show_on-AllDigits zero n behind h = h
show_on-AllDigits (suc fuel) n behind h = elim (Bool-cases (n / 10 == 0)) [
  | inl e ↦ rw e ((omega arith, omega arith), h)
  | inr e ↦
      rw e
        (show_on-AllDigits fuel (n / 10) ((48 + n % 10) ∷ behind) ((omega arith, omega arith), h))
]

pub to_string-AllDigits : (n : ℕ) → AllDigits (to_string n)
unfolding to_string
to_string-AllDigits n = show_on-AllDigits (suc n) n [] tt
