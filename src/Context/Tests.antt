-- ===== src/Context/Tests.antt =====
-- The theorems on contexts, on a context of one scope with one name.
use arrp.Common.{ℕ, ap, ◌≡◌, refl, [], ◌∷◌, none, some, arith}
use arrp.Common.Text.{Text, codes, same_text}
use arrp.Context.{
  ScopeLink, Context, level, roll_back_to, enter_scope, find, find_key, bind,
  current_scope_has_bound,
}
use arrp.Context.Find.{bind_lem}
use arrp.Context.Nested.{entered, bound, roll_back_to-Within}

abbrev first_byte : Text → ℕ
first_byte [] = 0
first_byte (c ∷ cs) = c

abbrev root : ScopeLink ℕ
root = record { scope = (codes "x", 1) ∷ []; parent = none }

bind_lem_example :
    (c : Context ℕ) × (bind (codes "y") 2 (root ∷ []) ≡ some c)
    × (find (codes "y") c ≡ some (2, 0))
    × (find (codes "x") c ≡ find (codes "x") (root ∷ []))
    × (bind (codes "y") 3 c ≡ none)
    × (level c ≡ 1)
unfolding current_scope_has_bound find_key same_text
bind_lem_example =
    bind_lem (codes "y") (codes "x") 2 3 root [] refl (λ e. omega (arith, ap first_byte e))

-- The context in an inner scope in which the name of the outer one is bound again.
abbrev shadowed : Context ℕ
shadowed = record { scope = (codes "x", 2) ∷ []; parent = some 0 } ∷ root ∷ []

roll_back_to-Within_example : roll_back_to (level (root ∷ [])) shadowed ≡ root ∷ []
unfolding bind enter_scope current_scope_has_bound find_key same_text
roll_back_to-Within_example =
    roll_back_to-Within {outer = root ∷ []} {c = shadowed}
      (bound {c = enter_scope (root ∷ [])} (codes "x") 2 entered refl)
