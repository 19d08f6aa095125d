-- ===== src/ReferenceAnalysis/Processed.antt =====
-- frontend/reference_analysis.cpp: what holds behind the processing of identifiers, on all branches of `process`.
use arrp.Common.{
  ℕ, false, ◌≡◌, refl, sym, ap, subst, ◌∙◌, ◌⊎◌, inl, inr, Bool-cases, List, [], ◌∷◌, ◌++◌, Option,
  some, length, take,
}
use arrp.Common.Partial.{◌>>=◌}
use arrp.ReferenceAnalysis.{
  Expr, State, contains, insert, push, unwind, mark, finish, from_found, process_ids,
}
use arrp.ReferenceAnalysis.Relation.{
  mentions, ◌∈◌, Reaches, contains-cons, contains-head, contains-tail,
}
use arrp.ReferenceAnalysis.Chain.{
  not_in_nil, contains-append, contains-append_left, contains-append_right, take-length_append,
  Chained, from_found-Reaches, from_found-self,
}
use arrp.ReferenceAnalysis.Ordered.{
  Ordered, insert-self, insert-keeps, insert-Ordered, Ordered-marks, not_both,
}

module _ (expr : ℕ → Expr) where
  -- The marks stand on loops only; the identifiers done that are not marked are in order; what is done on the
  -- stack is marked; and what an identifier that is done off the stack mentions is done.
  pub record Sound (s : State) : Type 0 where
    pub in_loop : (i : ℕ) → i ∈ s.recursive → Reaches expr i i
    pub ordered : Ordered expr s.recursive s.done
    pub marked : (i : ℕ) → i ∈ s.done → i ∈ s.visited → i ∈ s.recursive
    pub complete :
        (i : ℕ) → i ∈ s.done → (i ∈ s.visited) ⊎ ((j : ℕ) → j ∈ mentions (expr i) → j ∈ s.done)

  -- From a state with a given stack: the stack is the same again, nothing done is forgotten, and
  -- the given identifiers are done.
  pub record Processed (is : List ℕ) (s : State) (s' : State) : Type 0 where
    pub sound : Sound s'
    pub same_stack : s'.visited ≡ s.visited
    pub still_done : (j : ℕ) → j ∈ s.done → j ∈ s'.done
    pub now_done : (i : ℕ) → i ∈ is → i ∈ s'.done

  unfoldable pub Gives : List ℕ → State → Option State → Type 0
  Gives is s o = (s' : State) × (o ≡ some s') × Processed is s s'

  pub process_ids-Gives :
      (f : ℕ → State → Option State) (v : List ℕ) (is : List ℕ) (s : State)
      → ((i : ℕ) → i ∈ is → (t : State) → t.visited ≡ v → Sound t → Gives (i ∷ []) t (f i t))
      → s.visited ≡ v
      → Sound s
      → Gives is s (process_ids f is s)
  unfolding process_ids Gives
  process_ids-Gives f v [] s each at_v ok = (
    s,
    refl,
    record { sound = ok; same_stack = refl; still_done = λ j h. h; now_done = λ i h. not_in_nil h },
  )
  process_ids-Gives f v (i ∷ is) s each at_v ok =
      let (t, e, p) = each i (contains-head i is) s at_v ok in
      let (s', e', q) =
        process_ids-Gives f v is t (λ j m. each j (contains-tail j i is m)) (p.same_stack ∙ at_v)
          p.sound in
      (
        s',
        ap (λ o. o >>= process_ids f is) e ∙ e',
        record {
          sound = q.sound;
          same_stack = q.same_stack ∙ p.same_stack;
          still_done = λ j h. q.still_done j (p.still_done j h);
          now_done = λ j h. elim (contains-cons j i is h) [
            | inl same ↦
                q.still_done j (p.now_done j (subst (λ k. k ∈ i ∷ []) same (contains-head i [])))
            | inr m ↦ q.now_done j m
          ];
        },
      )

  insert-cases : (i j : ℕ) (ds : List ℕ) → j ∈ insert i ds → (i ≡ j) ⊎ (j ∈ ds)
  insert-cases i j ds h = elim (Bool-cases (contains i ds)) [
    | inl e ↦ inr (rw e at h)
    | inr e ↦ contains-cons j i ds (rw e at h)
  ]

  only_start : (start : ℕ) (ds : List ℕ) (i : ℕ) → i ∈ start ∷ [] → i ∈ insert start ds
  only_start start ds i h = elim (contains-cons i start [] h) [
    | inl same ↦ subst (λ k. k ∈ insert start ds) same (insert-self start ds)
    | inr n ↦ not_in_nil n
  ]

  -- The branch of an identifier that stands on the stack.
  pub mark-Processed :
      (start : ℕ) (s : State)
      → start ∈ s.visited
      → Chained expr s.visited start
      → Sound s
      → Processed (start ∷ []) s (finish start (mark start s))
  mark-Processed start s on chain ok = record {
    sound = record {
      in_loop = λ i m. elim (contains-append i (from_found start s.visited) s.recursive m) [
        | inl l ↦ from_found-Reaches chain i l
        | inr r ↦ ok.in_loop i r
      ];
      ordered = insert-Ordered start (inl now_marked) (Ordered-marks keep ok.ordered);
      marked = λ i h v. elim (insert-cases start i s.done h) [
        | inl same ↦ subst (λ k. k ∈ from_found start s.visited ++ s.recursive) same now_marked
        | inr m ↦ keep i (ok.marked i m v)
      ];
      complete = λ i h. elim (insert-cases start i s.done h) [
        | inl same ↦ inl (subst (λ k. k ∈ s.visited) same on)
        | inr m ↦ elim (ok.complete i m) [
          | inl v ↦ inl v
          | inr all ↦ inr (λ j n. insert-keeps start j s.done (all j n))
        ]
      ];
    };
    same_stack = refl;
    still_done = λ j h. insert-keeps start j s.done h;
    now_done = only_start start s.done;
  }
    where
      now_marked : start ∈ from_found start s.visited ++ s.recursive
      now_marked =
          contains-append_left start (from_found start s.visited) s.recursive
            (from_found-self start s.visited on)

      keep : (i : ℕ) → i ∈ s.recursive → i ∈ from_found start s.visited ++ s.recursive
      keep i m = contains-append_right i (from_found start s.visited) s.recursive m

  -- What is sound stays sound when an identifier that is not done is put on the stack.
  pub push-Sound :
      (start : ℕ) (s : State) → contains start s.done ≡ false → Sound s → Sound (push start s)
  push-Sound start s new ok = record {
    in_loop = ok.in_loop;
    ordered = ok.ordered;
    marked = λ i h v. elim (contains-append i s.visited (start ∷ []) v) [
      | inl l ↦ ok.marked i h l
      | inr o ↦ elim (contains-cons i start [] o) [
        | inl same ↦ not_both start s.done (subst (λ k. k ∈ s.done) (sym same) h) new
        | inr n ↦ not_in_nil n
      ]
    ];
    complete = λ i h. elim (ok.complete i h) [
      | inl v ↦ inl (contains-append_left i s.visited (start ∷ []) v)
      | inr all ↦ inr all
    ];
  }

  -- The branch of an identifier whose expression is visited.
  pub unwind-Processed :
      (start : ℕ) (s s' : State)
      → contains start s.visited ≡ false
      → Processed (mentions (expr start)) (push start s) s'
      → Processed (start ∷ []) s (finish start (unwind (length s.visited) s'))
  unwind-Processed start s s' off p = record {
    sound = record {
      in_loop = p.sound.in_loop;
      ordered = insert-Ordered start (inr p.now_done) p.sound.ordered;
      marked = λ i h v. elim (insert-cases start i s'.done h) [
        | inl same ↦
            not_both start s.visited (subst (λ k. k ∈ s.visited) (sym same) (on_stack i v)) off
        | inr m ↦ p.sound.marked i m (
            subst (λ w. i ∈ w) (sym p.same_stack)
              (contains-append_left i s.visited (start ∷ []) (on_stack i v)))
      ];
      complete = λ i h. elim (insert-cases start i s'.done h) [
        | inl same ↦
            inr
              (subst (λ k. (j : ℕ) → j ∈ mentions (expr k) → j ∈ insert start s'.done) same started)
        | inr m ↦ elim (p.sound.complete i m) [
          | inl v ↦ below i (subst (λ w. i ∈ w) p.same_stack v)
          | inr all ↦ inr (λ j n. insert-keeps start j s'.done (all j n))
        ]
      ];
    };
    same_stack = stack;
    still_done = λ j h. insert-keeps start j s'.done (p.still_done j h);
    now_done = only_start start s'.done;
  }
    where
      stack : take (length s.visited) s'.visited ≡ s.visited
      stack = ap (take (length s.visited)) p.same_stack ∙ take-length_append s.visited (start ∷ [])

      on_stack : (i : ℕ) → i ∈ take (length s.visited) s'.visited → i ∈ s.visited
      on_stack i v = subst (λ w. i ∈ w) stack v

      started : (j : ℕ) → j ∈ mentions (expr start) → j ∈ insert start s'.done
      started j n = insert-keeps start j s'.done (p.now_done j n)

      below :
          (i : ℕ)
          → i ∈ s.visited ++ (start ∷ [])
          → (i ∈ take (length s.visited) s'.visited)
            ⊎ ((j : ℕ) → j ∈ mentions (expr i) → j ∈ insert start s'.done)
      below i v = elim (contains-append i s.visited (start ∷ []) v) [
        | inl l ↦ inl (subst (λ w. i ∈ w) (sym stack) l)
        | inr o ↦ elim (contains-cons i start [] o) [
          | inl same ↦
              inr (
                subst (λ k. (j : ℕ) → j ∈ mentions (expr k) → j ∈ insert start s'.done) same
                  started)
          | inr n ↦ not_in_nil n
        ]
      ]
