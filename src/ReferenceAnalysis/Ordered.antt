-- ===== src/ReferenceAnalysis/Ordered.antt =====
-- frontend/reference_analysis.cpp: the identifiers that are done, each that is not marked behind those it mentions.
use arrp.Common.{ℕ, false, ◌≡◌, sym, subst, ◌∙◌, ◌⊎◌, inl, inr, Bool-cases, List, [], ◌∷◌}
use arrp.ReferenceAnalysis.{Expr, contains, insert}
use arrp.ReferenceAnalysis.Relation.{mentions, ◌∈◌, contains-cons, contains-head, contains-tail}
use arrp.ReferenceAnalysis.Chain.{not_in_nil}

pub data Ordered (expr : ℕ → Expr) (marks : List ℕ) : List ℕ → Type 0 where
  none_done : Ordered expr marks []
  one_more :
      {i : ℕ} {ds : List ℕ}
      → (i ∈ marks) ⊎ ((j : ℕ) → j ∈ mentions (expr i) → j ∈ ds)
      → contains i ds ≡ false
      → Ordered expr marks ds
      → Ordered expr marks (i ∷ ds)

-- From one identifier to another by one or more steps, each of them from an identifier that is not marked.
pub data ReachesUnmarked (expr : ℕ → Expr) (marks : List ℕ) : ℕ → ℕ → Type 0 where
  step :
      {i j : ℕ} → contains i marks ≡ false → j ∈ mentions (expr i) → ReachesUnmarked expr marks i j
  more :
      {i j k : ℕ}
      → contains i marks ≡ false
      → j ∈ mentions (expr i)
      → ReachesUnmarked expr marks j k
      → ReachesUnmarked expr marks i k

pub insert-self : (i : ℕ) (ds : List ℕ) → i ∈ insert i ds
insert-self i ds = elim (Bool-cases (contains i ds)) [
  | inl e ↦ rw e e
  | inr e ↦ rw e (contains-head i ds)
]

pub insert-keeps : (i j : ℕ) (ds : List ℕ) → j ∈ ds → j ∈ insert i ds
insert-keeps i j ds h = elim (Bool-cases (contains i ds)) [
  | inl e ↦ rw e h
  | inr e ↦ rw e (contains-tail j i ds h)
]

pub not_both {ℓ} : {A : Type ℓ} (i : ℕ) (xs : List ℕ) → i ∈ xs → contains i xs ≡ false → A
not_both i xs t f = not_in_nil (sym f ∙ t)

unmarked-mentions :
    (marks js ds : List ℕ) (i j : ℕ)
    → (i ∈ marks) ⊎ ((k : ℕ) → k ∈ js → k ∈ ds)
    → contains i marks ≡ false
    → j ∈ js
    → j ∈ ds
unmarked-mentions marks js ds i j (inl e) free m = not_both i marks e free
unmarked-mentions marks js ds i j (inr all) free m = all j m

module _ {expr : ℕ → Expr} {marks : List ℕ} where
  pub Ordered-marks :
      {more_marks ds : List ℕ}
      → ((i : ℕ) → i ∈ marks → i ∈ more_marks)
      → Ordered expr marks ds
      → Ordered expr more_marks ds
  Ordered-marks keep none_done = none_done
  Ordered-marks keep (one_more {i} (inl m) new o) =
      one_more (inl (keep i m)) new (Ordered-marks keep o)
  Ordered-marks keep (one_more (inr all) new o) = one_more (inr all) new (Ordered-marks keep o)

  pub insert-Ordered :
      (i : ℕ) {ds : List ℕ}
      → (i ∈ marks) ⊎ ((j : ℕ) → j ∈ mentions (expr i) → j ∈ ds)
      → Ordered expr marks ds
      → Ordered expr marks (insert i ds)
  insert-Ordered i {ds} all o = elim (Bool-cases (contains i ds)) [
    | inl e ↦ rw e o
    | inr e ↦ rw e (one_more all e o)
  ]

  Ordered-mentions :
      {ds : List ℕ}
      → Ordered expr marks ds
      → (i j : ℕ) → i ∈ ds
      → contains i marks ≡ false
      → j ∈ mentions (expr i)
      → j ∈ ds
  Ordered-mentions none_done i j h free m = not_in_nil h
  Ordered-mentions (one_more {i = d} {ds} all new o) i j h free m = elim (contains-cons i d ds h) [
    | inl e ↦ contains-tail j d ds (
        unmarked-mentions marks (mentions (expr d)) ds d j all
          (subst (λ k. contains k marks ≡ false) (sym e) free)
          (subst (λ k. j ∈ mentions (expr k)) (sym e) m))
    | inr l ↦ contains-tail j d ds (Ordered-mentions o i j l free m)
  ]

  Ordered-ReachesUnmarked :
      {ds : List ℕ}
      → Ordered expr marks ds
      → {i j : ℕ} → ReachesUnmarked expr marks i j
      → i ∈ ds
      → j ∈ ds
  Ordered-ReachesUnmarked o (step {i} {j} free m) h = Ordered-mentions o i j h free m
  Ordered-ReachesUnmarked o (more {i} {j} free m r) h =
      Ordered-ReachesUnmarked o r (Ordered-mentions o i j h free m)

  from_mentions :
      {ds : List ℕ} {d k : ℕ}
      → Ordered expr marks ds
      → (d ∈ marks) ⊎ ((j : ℕ) → j ∈ mentions (expr d) → j ∈ ds)
      → ReachesUnmarked expr marks d k
      → k ∈ ds
  from_mentions {ds} {d} o all (step {j} free m) =
      unmarked-mentions marks (mentions (expr d)) ds d j all free m
  from_mentions {ds} {d} o all (more {j} free m r) =
      Ordered-ReachesUnmarked o r (unmarked-mentions marks (mentions (expr d)) ds d j all free m)

  -- None of them is in a loop without a mark.
  pub Ordered-loopless :
      {ds : List ℕ} → Ordered expr marks ds → (i : ℕ) → i ∈ ds → ¬ (ReachesUnmarked expr marks i i)
  Ordered-loopless none_done i h r = not_in_nil h
  Ordered-loopless (one_more {i = d} {ds} all new o) i h r = elim (contains-cons i d ds h) [
    | inl e ↦
        not_both d ds (from_mentions o all (subst (λ k. ReachesUnmarked expr marks k k) (sym e) r))
          new
    | inr l ↦ Ordered-loopless o i l r
  ]
