-- ===== src/ReferenceAnalysis/Total.antt =====
-- frontend/reference_analysis.cpp: the analysis of a program ends, and what it marks.
use arrp.Common.{
  ℕ, zero, suc, false, ◌≡◌, refl, sym, ap, subst, ◌∙◌, inl, inr, ◌<◌, Bool-cases, List, [], ◌∷◌,
  ◌++◌, some, length, arith,
}
use arrp.Common.Partial.{◌>>=◌, some_inj}
use arrp.ReferenceAnalysis.{
  Expr, State, initial, contains, push, unwind, mark, finish, process_ids, process,
}
use arrp.ReferenceAnalysis.Relation.{
  mentions, ◌∈◌, Reaches, step, more, visit-process_ids, contains-cons,
}
use arrp.ReferenceAnalysis.Chain.{
  not_in_nil, Chained, bottom, Chained-push, unvisited, unvisited-nil, unvisited-push,
}
use arrp.ReferenceAnalysis.Ordered.{none_done, ReachesUnmarked, Ordered-loopless}
use arrp.ReferenceAnalysis.Processed.{
  Sound, Processed, Gives, process_ids-Gives, mark-Processed, unwind-Processed, push-Sound,
}

-- The three branches of `process`.
process-done :
    (expr : ℕ → Expr) (fuel start : ℕ) (s : State)
    → start ∈ s.done
    → process expr (suc fuel) start s ≡ some s
unfolding process
process-done expr fuel start s e = rw (e, process) refl

process-on_stack :
    (expr : ℕ → Expr) (fuel start : ℕ) (s : State)
    → contains start s.done ≡ false
    → start ∈ s.visited
    → process expr (suc fuel) start s ≡ some (finish start (mark start s))
unfolding process
process-on_stack expr fuel start s e on = rw (e, on, process) (rw e refl)

process-new :
    (expr : ℕ → Expr) (fuel start : ℕ) (s s' : State)
    → contains start s.done ≡ false
    → contains start s.visited ≡ false
    → process_ids (process expr fuel) (mentions (expr start)) (push start s) ≡ some s'
    → process expr (suc fuel) start s ≡ some (finish start (unwind (length s.visited) s'))
unfolding process
process-new expr fuel start s s' e off eq =
    rw (e, off, process)
      (ap (λ o. o >>= λ t. some (finish start (unwind (length s.visited) t)))
        (visit-process_ids (process expr fuel) (expr start) (push start s) ∙ eq))

initial-Sound : {expr : ℕ → Expr} → Sound expr initial
initial-Sound = record {
  in_loop = λ i h. not_in_nil h;
  ordered = none_done;
  marked = λ i h v. not_in_nil h;
  complete = λ i h. not_in_nil h;
}

-- Behind the analysis, what is reached from an identifier that is done is done.
done-mentions :
    {expr : ℕ → Expr} (s : State) (i j : ℕ)
    → s.visited ≡ []
    → Sound expr s
    → j ∈ mentions (expr i)
    → i ∈ s.done
    → j ∈ s.done
done-mentions s i j empty ok m h = elim (ok.complete i h) [
  | inl v ↦ not_in_nil (subst (λ w. i ∈ w) empty v)
  | inr all ↦ all j m
]

done-Reaches :
    {expr : ℕ → Expr} {i j : ℕ} (s : State)
    → s.visited ≡ []
    → Sound expr s
    → Reaches expr i j
    → i ∈ s.done
    → j ∈ s.done
done-Reaches s empty ok (step {i} {j} m) h = done-mentions s i j empty ok m h
done-Reaches s empty ok (more {i} {j} m r) h =
    done-Reaches s empty ok r (done-mentions s i j empty ok m h)

-- `all` holds each identifier that the expression of one of its identifiers mentions.
module _ (expr : ℕ → Expr) (all : List ℕ)
    (closed : (i j : ℕ) → i ∈ all → j ∈ mentions (expr i) → j ∈ all) where
  -- The depth of calls is limited by the identifiers that are not on the stack.
  process-Gives :
      (fuel start : ℕ) (s : State)
      → start ∈ all
      → Chained expr s.visited start
      → Sound expr s
      → unvisited all s.visited < fuel
      → Gives expr (start ∷ []) s (process expr fuel start s)
  unfolding Gives
  process-Gives zero start s known chain ok enough = absurd (omega arith)
  process-Gives (suc fuel) start s known chain ok enough =
      elim (Bool-cases (contains start s.done)) [
        | inl e ↦ (
          s,
          process-done expr fuel start s e,
          record {
            sound = ok;
            same_stack = refl;
            still_done = λ j h. h;
            now_done = λ i h. elim (contains-cons i start [] h) [
              | inl same ↦ subst (λ k. k ∈ s.done) same e
              | inr n ↦ not_in_nil n
            ];
          },
        )
        | inr e ↦ elim (Bool-cases (contains start s.visited)) [
          | inl on ↦
              (_, process-on_stack expr fuel start s e on, mark-Processed expr start s on chain ok)
          | inr off ↦
              let (s', eq, p) = inner (λ i t. process-Gives fuel i t) e off in
              (_, process-new expr fuel start s s' e off eq, unwind-Processed expr start s s' off p)
        ]
      ]
    where
      less :
          (t : State)
          → t.visited ≡ s.visited ++ (start ∷ [])
          → unvisited all (s.visited ++ (start ∷ [])) < unvisited all s.visited
          → unvisited all t.visited < fuel
      less t at l = rw at (omega arith)

      inner :
          ((i : ℕ) (t : State)
            → i ∈ all
            → Chained expr t.visited i
            → Sound expr t
            → unvisited all t.visited < fuel
            → Gives expr (i ∷ []) t (process expr fuel i t))
          → contains start s.done ≡ false
          → contains start s.visited ≡ false
          → Gives expr
              (mentions (expr start))
              (push start s)
              (process_ids (process expr fuel) (mentions (expr start)) (push start s))
      inner again new off =
          process_ids-Gives expr (process expr fuel) (s.visited ++ (start ∷ []))
            (mentions (expr start)) (push start s)
            (λ i m t at ok'.
              again i t (closed start i known m)
                (subst (λ v. Chained expr v i) (sym at) (Chained-push chain m)) ok'
                (less t at (unvisited-push all s.visited start known off)))
            refl (push-Sound expr start s new ok)

  module _ (ids : List ℕ) (known : (i : ℕ) → i ∈ ids → i ∈ all) where
    analysis-Gives :
        (fuel : ℕ)
        → length all < fuel
        → Gives expr ids initial (process_ids (process expr fuel) ids initial)
    analysis-Gives fuel enough =
        process_ids-Gives expr (process expr fuel) [] ids initial
          (λ i m t at ok.
            process-Gives fuel i t (known i m) (subst (λ v. Chained expr v i) (sym at) bottom) ok
              (rw (at, unvisited-nil all) enough))
          refl initial-Sound

    -- The analysis of the identifiers of a program ends, with more fuel than the program has
    -- identifiers: no chain of references is too long, none of its loops are followed again, the stack of
    -- visited identifiers is empty behind it, and each identifier it was given is done.
    pub process_ids_returns :
        (fuel : ℕ)
        → length all < fuel
        → (s : State) × (process_ids (process expr fuel) ids initial ≡ some s)
          × (s.visited ≡ [])
          × ((i : ℕ) → i ∈ ids → i ∈ s.done)
    unfolding Gives
    process_ids_returns fuel enough =
        let (s, e, p) = analysis-Gives fuel enough in (s, e, p.same_stack, p.now_done)

    analysis-Processed :
        (fuel : ℕ) (s : State)
        → length all < fuel
        → process_ids (process expr fuel) ids initial ≡ some s
        → Processed expr ids initial s
    unfolding Gives
    analysis-Processed fuel s enough result =
        let (t, e, p) = analysis-Gives fuel enough in
        subst (λ u. Processed expr ids initial u) (some_inj (sym e ∙ result)) p

    -- Each identifier that is marked behind the analysis, with more fuel than the program has identifiers,
    -- is part of a loop: by one or more steps, from an identifier to one that its expression refers to or has as
    -- a local one, it reaches itself.
    pub process_ids-Reaches :
        (fuel : ℕ) (s : State) (i : ℕ)
        → length all < fuel
        → process_ids (process expr fuel) ids initial ≡ some s
        → i ∈ s.recursive
        → Reaches expr i i
    process_ids-Reaches fuel s i enough result marked =
        (analysis-Processed fuel s enough result).sound.in_loop i marked

    -- Behind the analysis, with more fuel than the program has identifiers, no loop is without a mark: from an
    -- identifier that the analysis was given, and from each that is reached from there, no steps from
    -- identifiers that are all not marked lead back to it.
    pub process_ids-unmarked :
        (fuel : ℕ) (s : State) (i : ℕ)
        → length all < fuel
        → process_ids (process expr fuel) ids initial ≡ some s
        → i ∈ ids
        → (¬ (ReachesUnmarked expr s.recursive i i))
          × ((j : ℕ) → Reaches expr i j → ¬ (ReachesUnmarked expr s.recursive j j))
    process_ids-unmarked fuel s i enough result m =
        let p = analysis-Processed fuel s enough result in
        let h = p.now_done i m in
        (
          Ordered-loopless p.sound.ordered i h,
          λ j r. Ordered-loopless p.sound.ordered j (done-Reaches s p.same_stack p.sound r h),
        )
