-- ===== src/Context/Find.antt =====
-- utility/context.hpp: what is found in a context behind each of its operations.
use arrp.Common.{
  ℕ, ◌≡◌, ◌≢◌, refl, sym, ap, ◌∙◌, inl, inr, ==_iff, false, Bool-cases, List, [], ◌∷◌, none, some,
  length,
}
use arrp.Common.Partial.{◌>>=◌}
use arrp.Common.Text.{Text, same_text, same_text_iff}
use arrp.Context.{
  ScopeLink, Context, or_else, level, enter_scope, enter_scope_in, enter_isolated_scope, find_key,
  find_from, find, current_scope_has_bound, bind,
}

module _ {V : Type 0} where
  -- A new scope is empty: behind `enter_scope` the same is found as before, behind `enter_isolated_scope`
  -- nothing, and in a scope with a parent what is found from that parent on.
  find-enter_scope :
      (key : Text) (c : Context V) (parent : ℕ)
      → (find key (enter_scope c) ≡ find key c)
        × (find key (enter_isolated_scope c) ≡ none)
        × (find key (enter_scope_in (some parent) c) ≡ find_from c parent key)
  unfolding find find_from find_key enter_scope enter_isolated_scope enter_scope_in
  find-enter_scope key [] parent = (refl, refl, refl)
  find-enter_scope key (link ∷ links) parent =
      rw ((==_iff (length (link ∷ links)) (length (link ∷ links))).1 refl) (refl, refl, refl)

  find_head :
      (key : Text) (link : ScopeLink V) (links : Context V)
      → find key (link ∷ links)
        ≡ or_else
            (find_key key link.scope >>= λ value. some (value, length links))
            (link.parent >>= λ parent. find_from links parent key)
  unfolding find find_from
  find_head key link links = rw ((==_iff (length links) (length links)).1 refl) refl

  find_key-ne :
      (key other : Text) (value : V) (scope : List (Text × V))
      → key ≢ other
      → find_key other ((key, value) ∷ scope) ≡ find_key other scope
  unfolding find_key
  find_key-ne key other value scope ne = elim (Bool-cases (same_text key other)) [
    | inl e ↦ absurd (ne ((same_text_iff key other).0 e))
    | inr e ↦ rw e refl
  ]

  find_key_self :
      (key : Text) (value : V) (scope : List (Text × V))
      → find_key key ((key, value) ∷ scope) ≡ some value
  unfolding find_key
  find_key_self key value scope = rw ((same_text_iff key key).1 refl) refl

  -- A name that the current scope does not have can be bound there. It is then found in that scope, with
  -- its value; each other name is found as before; and the name cannot be bound again.
  pub bind_lem :
      (key other : Text) (value again : V) (link : ScopeLink V) (links : Context V)
      → current_scope_has_bound key (link ∷ links) ≡ false
      → key ≢ other
      → (c : Context V) × (bind key value (link ∷ links) ≡ some c)
        × (find key c ≡ some (value, length links))
        × (find other c ≡ find other (link ∷ links))
        × (bind key again c ≡ none)
        × (level c ≡ level (link ∷ links))
  unfolding bind current_scope_has_bound
  bind_lem key other value again link links free ne = (
    record link { scope = (key, value) ∷ link.scope } ∷ links,
    rw free refl,
    rw (find_head, find_key_self key value link.scope) refl,
    find_head other (record link { scope = (key, value) ∷ link.scope }) links
        ∙ ap
            (λ o.
              or_else (o >>= λ found. some (found, length links))
                (link.parent >>= λ parent. find_from links parent other))
            (find_key-ne key other value link.scope ne)
        ∙ sym (find_head other link links),
    rw (find_key_self key value link.scope) refl,
    refl,
  )
