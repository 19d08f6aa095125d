-- ===== src/Context.antt =====
-- utility/context.hpp: `context`, the stack of scopes in which names are bound, for names that are texts.
-- `m_stack` is a list with the front first. A pointer to a scope is the number of scopes below it.
pub mod Find
pub mod Nested
mod Tests
use arrp.Common.{
  ℕ, ◌==◌, ltb, if◌then◌else◌, Bool, true, false, List, [], ◌∷◌, Option, none, some, length,
}
use arrp.Common.Partial.{◌>>=◌}
use arrp.Common.Text.{Text, same_text}

-- `scope_link`; `none` is the null pointer.
pub record ScopeLink {ℓ} (V : Type ℓ) : Type ℓ where
  pub scope : List (Text × V)
  pub parent : Option ℕ

abbrev pub Context {ℓ} : Type ℓ → Type ℓ
Context V = List (ScopeLink V)

abbrev pub or_else {ℓ} : {A : Type ℓ} → Option A → Option A → Option A
or_else (some a) other = some a
or_else none other = other

abbrev pub is_some {ℓ} : {A : Type ℓ} → Option A → Bool
is_some (some a) = true
is_some none = false

module _ {ℓ} {V : Type ℓ} where
  abbrev pub level : Context V → ℕ
  level c = length c

  -- `pop_front` until no more than `n` scopes are left.
  unfoldable pub roll_back_to : ℕ → Context V → Context V
  roll_back_to n [] = []
  roll_back_to n (link ∷ links) =
      let popped = roll_back_to n links in
      if ltb n (level (link ∷ links)) then popped else link ∷ links

  unfoldable pub enter_scope : Context V → Context V
  enter_scope [] = record { scope = []; parent = none } ∷ []
  enter_scope (link ∷ links) = record { scope = []; parent = some (length links) } ∷ link ∷ links

  -- `enter_scope(parent)`.
  unfoldable pub enter_scope_in : Option ℕ → Context V → Context V
  enter_scope_in parent c = record { scope = []; parent = parent } ∷ c

  unfoldable pub enter_isolated_scope : Context V → Context V
  enter_isolated_scope c = record { scope = []; parent = none } ∷ c

  -- An empty stack cannot be popped.
  unfoldable pub exit_scope : Context V → Option (Context V)
  exit_scope [] = none
  exit_scope (link ∷ links) = some links

  -- `find` in the map of a scope.
  unfoldable pub find_key : Text → List (Text × V) → Option V
  find_key key [] = none
  find_key key ((bound, value) ∷ rest) =
      let later = find_key key rest in if same_text bound key then some value else later

  -- The loop of `find`, from the scope with the number on: from a scope it goes to the parent, which is
  -- a scope further down. The value is found with the number of its scope.
  unfoldable pub find_from : Context V → ℕ → Text → Option (V × ℕ)
  find_from [] number key = none
  find_from (link ∷ links) number key =
      let below = find_from links number key in
      let here = find_key key link.scope >>= λ value. some (value, number) in
      let outer = link.parent >>= λ parent. find_from links parent key in
      if number == length links then or_else here outer else below

  -- `find`, from the front.
  unfoldable pub find : Text → Context V → Option (V × ℕ)
  find key [] = none
  find key (link ∷ links) = find_from (link ∷ links) (length links) key

  -- `current_scope_has_bound`, in a stack that is not empty.
  unfoldable pub current_scope_has_bound : Text → Context V → Bool
  current_scope_has_bound key [] = false
  current_scope_has_bound key (link ∷ links) = is_some (find_key key link.scope)

  -- `none` is the error of a name that is in the scope already, and the assertion that there is a scope.
  unfoldable pub bind : Text → V → Context V → Option (Context V)
  unfolding current_scope_has_bound
  bind key value [] = none
  bind key value (link ∷ links) =
      if current_scope_has_bound key (link ∷ links)
      then none
      else some (record link { scope = (key, value) ∷ link.scope } ∷ links)
