-- ===== src/Names/NameProvider/Unique.antt =====
-- frontend/name_provider.hpp: the names that are given in a sequence of calls.
use arrp.Common.{
  ℕ, ◌<◌, ◌≡◌, ◌⊎◌, inl, inr, refl, sym, ap, ◌∙◌, Bool-cases, ◌==◌, ==_iff, List, [], ◌∷◌, ◌++◌,
  none, some, arith,
}
use arrp.Common.Partial.{some_inj}
use arrp.Common.Text.{Text, to_string, to_string-injective, to_string-AllDigits, IsDigit, AllDigits}
use arrp.Names.{counted, counted-le, counted_self}
use arrp.Names.NameProvider.{NameProvider, split_at_last, base_name, new_name, new_names}

-- The name is one of the list.
abbrev pub GivenIn : Text → List Text → Type 0
GivenIn name [] = ⊥
GivenIn name (x ∷ xs) = (x ≡ name) ⊎ GivenIn name xs

-- No name stands in the list twice.
abbrev pub AllDistinct : List Text → Type 0
AllDistinct [] = Unit
AllDistinct (x ∷ xs) = ((GivenIn x xs) → ⊥) × AllDistinct xs

split_at_last-none :
    (separator : ℕ) (text : Text)
    → (IsDigit separator → ⊥)
    → AllDigits text
    → split_at_last separator text ≡ none
unfolding split_at_last
split_at_last-none separator [] ns h = refl
split_at_last-none separator (c ∷ cs) ns h =
    rw (split_at_last-none separator cs ns h.1) (elim (Bool-cases (c == separator)) [
      | inl e ↦ absurd (ns (rw (← (==_iff c separator).0 e) h.0))
      | inr e ↦ rw e refl
    ])

-- A base and a number can be told apart.
split_at_last-number :
    (separator : ℕ) (base number : Text)
    → (IsDigit separator → ⊥)
    → AllDigits number
    → split_at_last separator (base ++ separator ∷ number) ≡ some (base, number)
unfolding split_at_last
split_at_last-number separator [] number ns h =
    rw (split_at_last-none separator number ns h, (==_iff separator separator).1 refl) refl
split_at_last-number separator (c ∷ cs) number ns h =
    rw (split_at_last-number separator cs number ns h) refl

-- The name of a base with a number.
abbrev numbered : ℕ → Text → ℕ → Text
numbered separator base n = base ++ separator ∷ to_string n

numbered-injective :
    (separator : ℕ) (b c : Text) (m n : ℕ)
    → (IsDigit separator → ⊥)
    → numbered separator b m ≡ numbered separator c n
    → (b ≡ c) × (m ≡ n)
numbered-injective separator b c m n ns h =
    let pair = some_inj (
      sym (split_at_last-number separator b (to_string m) ns (to_string-AllDigits m))
      ∙ ap (split_at_last separator) h
      ∙ split_at_last-number separator c (to_string n) ns (to_string-AllDigits n)) in
    (ap (λ p. p.0) pair, to_string-injective m n (ap (λ p. p.1) pair))

-- Each name that is given from a state on has a number above the count of its base in that state.
new_names-numbered :
    (names : List Text) (p : NameProvider) (name : Text)
    → GivenIn name (new_names names p)
    → (base : Text) × (n : ℕ) × (name ≡ numbered p.separator base n) × (p.name_counts base < n)
unfolding new_names new_name
new_names-numbered [] p name g = absurd g
new_names-numbered (x ∷ xs) p name (inl e) =
    let base = base_name p.separator x in
    (base, counted base p.name_counts base, sym e, omega (arith, counted_self base p.name_counts))
new_names-numbered (x ∷ xs) p name (inr g) =
    let used = base_name p.separator x in
    let next = record p { name_counts = counted used p.name_counts } in
    let (base, n, e, above) = new_names-numbered xs next name g in
    (base, n, e, omega (arith, counted-le used p.name_counts base))

-- If the separator is not a digit, the names that are given in a sequence of calls are all distinct, whatever
-- names are asked for, and in whatever state the calls start.
pub new_names-AllDistinct :
    (names : List Text) (p : NameProvider)
    → (IsDigit p.separator → ⊥)
    → AllDistinct (new_names names p)
unfolding new_names new_name
new_names-AllDistinct [] p ns = tt
new_names-AllDistinct (x ∷ xs) p ns =
    let used = base_name p.separator x in
    let next = record p { name_counts = counted used p.name_counts } in
    (
      λ g.
          let (base, n, e, above) = new_names-numbered xs next _ g in
          let (same, equal) =
            numbered-injective p.separator used base (counted used p.name_counts used) n ns e in
          omega (arith, ap (counted used p.name_counts) same),
      new_names-AllDistinct xs next ns,
    )
