-- ===== src/ReferenceAnalysis/Relation.antt =====
-- frontend/reference_analysis.cpp: which identifiers an expression mentions, and the visits of an expression as the
-- sequence of identifiers that are processed.
use arrp.Common.{
  ℕ, true, ◌≡◌, refl, sym, ap, ◌∙◌, ◌⊎◌, inl, inr, ◌==◌, ==_iff, Bool-cases, List, [], ◌∷◌, ◌++◌,
  Option, none, some,
}
use arrp.Common.Partial.{◌>>=◌}
use arrp.ReferenceAnalysis.{
  Expr, Exprs, leaf, reference, compound, scope_expr, no_exprs, more_exprs, State, contains,
  process_ids, visit, visit_parts,
}

-- The identifiers that an expression refers to, or that are local in it, in the order of their processing.
unfoldable mutual
  pub mentions : Expr → List ℕ
  mentions (leaf l) = []
  mentions (reference none) = []
  mentions (reference (some i)) = i ∷ []
  mentions (compound kind parts) = mentions_parts parts
  mentions (scope_expr ids value) = ids ++ mentions value

  pub mentions_parts : Exprs → List ℕ
  mentions_parts no_exprs = []
  mentions_parts (more_exprs e es) = mentions e ++ mentions_parts es

-- A member of a list.
infix 50 ◌∈◌
abbrev pub ◌∈◌ : ℕ → List ℕ → Type 0
i ∈ xs = contains i xs ≡ true

-- From one identifier to another by one or more steps into what its expression mentions.
pub data Reaches (expr : ℕ → Expr) : ℕ → ℕ → Type 0 where
  step : {i j : ℕ} → j ∈ mentions (expr i) → Reaches expr i j
  more : {i j k : ℕ} → j ∈ mentions (expr i) → Reaches expr j k → Reaches expr i k

pub Reaches-trans :
    {expr : ℕ → Expr} {i j k : ℕ} → Reaches expr i j → Reaches expr j k → Reaches expr i k
Reaches-trans (step m) r = more m r
Reaches-trans (more m q) r = more m (Reaches-trans q r)

bind_assoc :
    (o : Option State) (f g : State → Option State) → (o >>= f >>= g) ≡ (o >>= λ s. f s >>= g)
bind_assoc none f g = refl
bind_assoc (some s) f g = refl

bind_ext :
    {f g : State → Option State} (o : Option State)
    → ((s : State) → f s ≡ g s)
    → (o >>= f) ≡ (o >>= g)
bind_ext none h = refl
bind_ext (some s) h = h s

process_ids-append :
    (f : ℕ → State → Option State) (is js : List ℕ) (s : State)
    → process_ids f (is ++ js) s ≡ (process_ids f is s >>= process_ids f js)
unfolding process_ids
process_ids-append f [] js s = refl
process_ids-append f (i ∷ is) js s =
    bind_ext (f i s) (process_ids-append f is js)
    ∙ sym (bind_assoc (f i s) (process_ids f is) (process_ids f js))

process_ids-one :
    (f : ℕ → State → Option State) (i : ℕ) (s : State) → f i s ≡ process_ids f (i ∷ []) s
unfolding process_ids
process_ids-one f i s = go (f i s)
  where
    go : (o : Option State) → o ≡ (o >>= process_ids f [])
    go none = refl
    go (some s) = refl

mutual
  unfolding visit visit_parts mentions mentions_parts process_ids

  pub visit-process_ids :
      (f : ℕ → State → Option State) (e : Expr) (s : State)
      → visit f e s ≡ process_ids f (mentions e) s
  visit-process_ids f (leaf l) s = refl
  visit-process_ids f (reference none) s = refl
  visit-process_ids f (reference (some i)) s = process_ids-one f i s
  visit-process_ids f (compound kind parts) s = visit_parts-process_ids f parts s
  visit-process_ids f (scope_expr ids value) s =
      bind_ext (process_ids f ids s) (λ t. visit-process_ids f value t)
      ∙ sym (process_ids-append f ids (mentions value) s)

  visit_parts-process_ids :
      (f : ℕ → State → Option State) (es : Exprs) (s : State)
      → visit_parts f es s ≡ process_ids f (mentions_parts es) s
  visit_parts-process_ids f no_exprs s = refl
  visit_parts-process_ids f (more_exprs e es) s =
      ap (λ o. o >>= visit_parts f es) (visit-process_ids f e s)
      ∙ bind_ext (process_ids f (mentions e) s) (λ t. visit_parts-process_ids f es t)
      ∙ sym (process_ids-append f (mentions e) (mentions_parts es) s)

pub contains-cons : (i x : ℕ) (xs : List ℕ) → i ∈ x ∷ xs → (x ≡ i) ⊎ (i ∈ xs)
contains-cons i x xs h = elim (Bool-cases (x == i)) [
  | inl e ↦ inl ((==_iff x i).0 e)
  | inr e ↦ inr (rw e at h)
]

pub contains-head : (i : ℕ) (xs : List ℕ) → i ∈ i ∷ xs
contains-head i xs = rw ((==_iff i i).1 refl) refl

pub contains-tail : (i x : ℕ) (xs : List ℕ) → i ∈ xs → i ∈ x ∷ xs
contains-tail i x xs h = elim (Bool-cases (x == i)) [ inl e ↦ rw e refl | inr e ↦ rw e h ]
