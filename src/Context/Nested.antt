-- ===== src/Context/Nested.antt =====
-- utility/context.hpp: inner scopes and the ones outside of them.
use arrp.Common.{
  ℕ, ◌<◌, ◌≡◌, refl, sym, ap, ◌∙◌, inl, inr, false, Bool-cases, ltb, lt→ltb, [], ◌∷◌, ◌++◌, Option,
  some, length, length-append, arith,
}
use arrp.Common.Partial.{some_inj}
use arrp.Common.Text.{Text}
use arrp.Context.{
  ScopeLink, Context, level, roll_back_to, enter_scope, enter_scope_in, enter_isolated_scope,
  exit_scope, bind, current_scope_has_bound,
}

module _ {V : Type 0} where
  -- The states of a context behind steps that enter a scope from a given state, and do not leave it.
  pub data Within (outer : Context V) : Context V → Type 0 where
    entered : Within outer (enter_scope outer)
    entered_in : (parent : Option ℕ) → Within outer (enter_scope_in parent outer)
    entered_isolated : Within outer (enter_isolated_scope outer)
    deeper : {c : Context V} → Within outer c → Within outer (enter_scope c)
    deeper_in :
        {c : Context V} (parent : Option ℕ)
        → Within outer c
        → Within outer (enter_scope_in parent c)
    deeper_isolated : {c : Context V} → Within outer c → Within outer (enter_isolated_scope c)
    bound :
        {c c' : Context V} (key : Text) (value : V)
        → Within outer c
        → bind key value c ≡ some c'
        → Within outer c'
    left :
        {c c' : Context V}
        → Within outer c
        → exit_scope c ≡ some c'
        → level outer < level c'
        → Within outer c'

  -- The outer scopes stand unchanged below at least one other.
  Stands : Context V → Context V → Type 0
  Stands outer c = (link : ScopeLink V) × (inner : Context V) × (c ≡ link ∷ inner ++ outer)

  enter_scope-cons : (c : Context V) → (link : ScopeLink V) × (enter_scope c ≡ link ∷ c)
  unfolding enter_scope
  enter_scope-cons [] = (_, refl)
  enter_scope-cons (link ∷ links) = (_, refl)

  Stands-bind :
      (outer : Context V) (key : Text) (value : V) (link : ScopeLink V) (inner : Context V)
      (c' : Context V)
      → bind key value (link ∷ inner ++ outer) ≡ some c'
      → Stands outer c'
  unfolding bind Stands
  Stands-bind outer key value link inner c' h =
      elim (Bool-cases (current_scope_has_bound key (link ∷ inner ++ outer))) [
        | inl e ↦ cc (rw e at h)
        | inr e ↦
            (record link { scope = (key, value) ∷ link.scope }, inner, sym (some_inj (rw e at h)))
      ]

  Stands-exit :
      (outer : Context V) (link : ScopeLink V) (inner : Context V) (c' : Context V)
      → exit_scope (link ∷ inner ++ outer) ≡ some c'
      → level outer < level c'
      → Stands outer c'
  unfolding exit_scope Stands
  Stands-exit outer link [] c' h above = absurd (omega (arith, ap length (some_inj h)))
  Stands-exit outer link (next ∷ inner) c' h above = (next, inner, sym (some_inj h))

  Within-Stands : {outer c : Context V} → Within outer c → Stands outer c
  unfolding Stands enter_scope_in enter_isolated_scope
  Within-Stands {outer} entered = let (link, e) = enter_scope-cons outer in (link, [], e)
  Within-Stands (entered_in parent) = (_, [], refl)
  Within-Stands entered_isolated = (_, [], refl)
  Within-Stands (deeper {c} w) =
      let (link, inner, e) = Within-Stands w in
      let (new, e') = enter_scope-cons c in (new, link ∷ inner, e' ∙ ap (λ ls. new ∷ ls) e)
  Within-Stands (deeper_in parent w) =
      let (link, inner, e) = Within-Stands w in (_, link ∷ inner, ap (enter_scope_in parent) e)
  Within-Stands (deeper_isolated w) =
      let (link, inner, e) = Within-Stands w in (_, link ∷ inner, ap enter_isolated_scope e)
  Within-Stands {outer} (bound {c} {c'} key value w h) =
      let (link, inner, e) = Within-Stands w in
      Stands-bind outer key value link inner c' (sym (ap (bind key value) e) ∙ h)
  Within-Stands {outer} (left {c} {c'} w h above) =
      let (link, inner, e) = Within-Stands w in
      Stands-exit outer link inner c' (sym (ap exit_scope e) ∙ h) above

  roll_back_to-level : (outer : Context V) → roll_back_to (level outer) outer ≡ outer
  unfolding roll_back_to
  roll_back_to-level [] = refl
  roll_back_to-level (link ∷ links) = rw (irrefl (level (link ∷ links))) refl
    where
      irrefl : (n : ℕ) → ltb n n ≡ false
      irrefl n = ground arith

  roll_back_to-append :
      (outer inner : Context V) → roll_back_to (level outer) (inner ++ outer) ≡ outer
  unfolding roll_back_to
  roll_back_to-append outer [] = roll_back_to-level outer
  roll_back_to-append outer (link ∷ inner) =
      rw
        (lt→ltb (level outer) (level (link ∷ inner ++ outer))
          (omega (arith, length-append inner outer)))
        (roll_back_to-append outer inner)

  -- Whatever scopes are entered from a state on, whatever is bound in them, and however many of them are
  -- left, as long as one remains, `roll_back_to` the level of that state restores the state.
  pub roll_back_to-Within :
      {outer c : Context V} → Within outer c → roll_back_to (level outer) c ≡ outer
  unfolding Stands
  roll_back_to-Within {outer} w =
      let (link, inner, e) = Within-Stands w in
      ap (roll_back_to (level outer)) e ∙ roll_back_to-append outer (link ∷ inner)
