-- ===== src/ReferenceAnalysis/Tests.antt =====
-- The theorems on marked identifiers, on a program with two loops through one identifier.
use arrp.Common.{
  Bool, ◌&&◌, and_elim, sym, ℕ, zero, suc, true, ◌≡◌, refl, subst, inl, inr, List, [], ◌∷◌, Option,
  none, some, arith,
}
use arrp.ReferenceAnalysis.{
  Expr, leaf, int_const, reference, compound, primitive, array, scope_expr, no_exprs, more_exprs,
  State, initial, contains, process_ids, visit, visit_parts, process,
}
use arrp.ReferenceAnalysis.Relation.{
  mentions, mentions_parts, ◌∈◌, Reaches, step, more, contains-cons,
}
use arrp.ReferenceAnalysis.Chain.{not_in_nil}
use arrp.ReferenceAnalysis.Ordered.{ReachesUnmarked}
use arrp.ReferenceAnalysis.Total.{process_ids_returns, process_ids-Reaches, process_ids-unmarked}

-- 0 refers to 1 and to 2, in this order, and they refer to 0; 3 has 4 as a local identifier.
abbrev two_loops : ℕ → Expr
two_loops zero =
    compound primitive (more_exprs (reference (some 1)) (more_exprs (reference (some 2)) no_exprs))
two_loops (suc zero) = compound array (more_exprs (reference (some 0)) no_exprs)
two_loops (suc (suc zero)) = compound array (more_exprs (reference (some 0)) no_exprs)
two_loops (suc (suc (suc zero))) = scope_expr (4 ∷ []) (reference (some 4))
two_loops i = leaf int_const

abbrev after : Option State → List ℕ × List ℕ
after none = ([], [])
after (some s) = (s.recursive, s.done)

-- 2 is in a loop as well, but 0 is done by the time at which 2 refers to it.
second_loop :
    after (process_ids (process two_loops 6) (0 ∷ 1 ∷ 2 ∷ 3 ∷ []) initial)
    ≡ (0 ∷ 1 ∷ [], 3 ∷ 4 ∷ 2 ∷ 1 ∷ 0 ∷ [])
unfolding process_ids process visit visit_parts
second_loop = refl

second_loop-Reaches : Reaches two_loops 2 2
unfolding mentions mentions_parts
second_loop-Reaches = more {j = 0} refl (step refl)

too_little_fuel : process_ids (process two_loops 1) (0 ∷ []) initial ≡ none
unfolding process_ids process visit visit_parts
too_little_fuel = refl

abbrev all_ids : List ℕ
all_ids = 0 ∷ 1 ∷ 2 ∷ 3 ∷ 4 ∷ []

-- Tests of inclusion, for the conditions of the theorems.
abbrev each_in : List ℕ → List ℕ → Bool
each_in [] ys = true
each_in (x ∷ xs) ys = contains x ys && each_in xs ys

each_in-∈ : (xs ys : List ℕ) → each_in xs ys ≡ true → (j : ℕ) → j ∈ xs → j ∈ ys
each_in-∈ [] ys h j m = not_in_nil m
each_in-∈ (x ∷ xs) ys h j m =
    let (first, rest) = and_elim (contains x ys) (each_in xs ys) h in
    elim (contains-cons j x xs m) [
      | inl e ↦ subst (λ k. k ∈ ys) e first
      | inr n ↦ each_in-∈ xs ys rest j n
    ]

abbrev closed_in : (ℕ → Expr) → List ℕ → List ℕ → Bool
closed_in expr [] all = true
closed_in expr (i ∷ is) all = each_in (mentions (expr i)) all && closed_in expr is all

closed_in_lem :
    (expr : ℕ → Expr) (is all : List ℕ)
    → closed_in expr is all ≡ true
    → (i j : ℕ) → i ∈ is
    → j ∈ mentions (expr i)
    → j ∈ all
closed_in_lem expr [] all h i j m n = not_in_nil m
closed_in_lem expr (x ∷ is) all h i j m n =
    let (first, rest) = and_elim (each_in (mentions (expr x)) all) (closed_in expr is all) h in
    elim (contains-cons i x is m) [
      | inl e ↦
          each_in-∈ (mentions (expr x)) all first j (subst (λ k. j ∈ mentions (expr k)) (sym e) n)
      | inr o ↦ closed_in_lem expr is all rest i j o n
    ]

two_loops-closed : (i j : ℕ) → i ∈ all_ids → j ∈ mentions (two_loops i) → j ∈ all_ids
unfolding mentions mentions_parts
two_loops-closed = closed_in_lem two_loops all_ids all_ids refl

global_ids-known : (i : ℕ) → i ∈ 0 ∷ 1 ∷ 2 ∷ 3 ∷ [] → i ∈ all_ids
global_ids-known = each_in-∈ (0 ∷ 1 ∷ 2 ∷ 3 ∷ []) all_ids refl

process_ids_returns_example :
    (s : State) × (process_ids (process two_loops 6) (0 ∷ 1 ∷ 2 ∷ 3 ∷ []) initial ≡ some s)
    × (s.visited ≡ [])
    × ((i : ℕ) → i ∈ 0 ∷ 1 ∷ 2 ∷ 3 ∷ [] → i ∈ s.done)
process_ids_returns_example =
    process_ids_returns two_loops all_ids two_loops-closed (0 ∷ 1 ∷ 2 ∷ 3 ∷ []) global_ids-known 6
      (omega arith)

process_ids-Reaches_example : Reaches two_loops 1 1
unfolding process_ids process visit visit_parts
process_ids-Reaches_example =
    process_ids-Reaches two_loops all_ids two_loops-closed (0 ∷ 1 ∷ 2 ∷ 3 ∷ []) global_ids-known 6
      (record { visited = []; done = 3 ∷ 4 ∷ 2 ∷ 1 ∷ 0 ∷ []; recursive = 0 ∷ 1 ∷ [] }) 1
      (omega arith) refl refl

process_ids-unmarked_example :
    (¬ (ReachesUnmarked two_loops (0 ∷ 1 ∷ []) 0 0))
    × ((j : ℕ) → Reaches two_loops 0 j → ¬ (ReachesUnmarked two_loops (0 ∷ 1 ∷ []) j j))
unfolding process_ids process visit visit_parts
process_ids-unmarked_example =
    process_ids-unmarked two_loops all_ids two_loops-closed (0 ∷ 1 ∷ 2 ∷ 3 ∷ []) global_ids-known 6
      (record { visited = []; done = 3 ∷ 4 ∷ 2 ∷ 1 ∷ 0 ∷ []; recursive = 0 ∷ 1 ∷ [] }) 0
      (omega arith) refl refl
