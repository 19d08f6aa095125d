-- ===== src/CppGen/Level.antt =====
-- utility/cpp-gen.cpp: the level of indentation, before and behind a statement.
use arrp.Common.{ℕ, suc, ◌≡◌, refl, Bool, true, false, List, [], ◌∷◌, ◌++◌, none, some}
use arrp.CppGen.Expression.{Piece, text, generate}
use arrp.CppGen.Statement.{
  Writer, write, write_line, increase_indentation, decrease_indentation, ◌>>◌, Stmt, Stmts, OptStmt,
  block_statement, expr_statement, if_statement, for_statement, comment_statement, return_statement,
  no_stmts, more_stmts, no_stmt, some_stmt, generate_nested, in_braces, pragma, generate_stmt,
  generate_stmts, generate_else,
}

-- The code writes something from each level between two, without a failing assertion, and goes to a level
-- by so much higher.
abbrev pub Goes : (ℕ → ℕ) → Writer → (ℕ → ℕ) → Type 0
Goes from g to = (n : ℕ) → (ps : List Piece) × (g (from n) ≡ some (to n, ps))

-- The code writes at each level, without a failing assertion, and leaves the level as it is.
abbrev pub KeepsLevel : Writer → Type 0
KeepsLevel g = Goes (λ n. n) g (λ n. n)

step :
    {from mid to : ℕ → ℕ} (g h : Writer) → Goes from g mid → Goes mid h to → Goes from (g >> h) to
unfolding ◌>>◌
step {mid} g h a b n = let (ps, e) = a n in let (qs, f) = b n in (ps ++ qs, rw (e, f) refl)

pub write-KeepsLevel : (ps : List Piece) → KeepsLevel (write ps)
unfolding write
write-KeepsLevel ps n = (ps, refl)

pub write_line-KeepsLevel : KeepsLevel write_line
unfolding write_line
write_line-KeepsLevel n = (_, refl)

pub both : (g h : Writer) → KeepsLevel g → KeepsLevel h → KeepsLevel (g >> h)
both g h a b = step {from = λ n. n} {mid = λ n. n} {to = λ n. n} g h a b

-- Behind an increase, up to the decrease.
pub raised : (g h : Writer) → KeepsLevel g → Goes suc h (λ n. n) → Goes suc (g >> h) (λ n. n)
raised g h a b = step {from = suc} {mid = suc} {to = λ n. n} g h (λ n. a (suc n)) b

pub lowered : (h : Writer) → KeepsLevel h → Goes suc (decrease_indentation >> h) (λ n. n)
unfolding decrease_indentation
lowered h b =
    step {from = suc} {mid = λ n. n} {to = λ n. n} decrease_indentation h (λ n. ([], refl)) b

pub increased : (h : Writer) → Goes suc h (λ n. n) → KeepsLevel (increase_indentation >> h)
unfolding increase_indentation
increased h b =
    step {from = λ n. n} {mid = suc} {to = λ n. n} increase_indentation h (λ n. ([], refl)) b

closing : KeepsLevel (write_line >> write (text "}" ∷ []))
closing = both write_line (write (text "}" ∷ [])) write_line-KeepsLevel (write-KeepsLevel _)

braces :
    (g : Writer)
    → KeepsLevel g
    → KeepsLevel (
        write (text "{" ∷ [])
        >> increase_indentation
        >> g
        >> decrease_indentation
        >> write_line
        >> write (text "}" ∷ []))
braces g h =
    both (write (text "{" ∷ [])) _ (write-KeepsLevel _)
      (increased _ (raised g _ h (lowered _ closing)))

in_braces-KeepsLevel : (g : Writer) → KeepsLevel g → KeepsLevel (in_braces g)
in_braces-KeepsLevel g h = both write_line _ write_line-KeepsLevel (
    both (write (text "{" ∷ [])) _ (write-KeepsLevel _)
      (increased _ (raised write_line _ write_line-KeepsLevel (raised g _ h (lowered _ closing)))))

on_new_line :
    (g : Writer)
    → KeepsLevel g
    → KeepsLevel (increase_indentation >> write_line >> g >> decrease_indentation)
unfolding decrease_indentation
on_new_line g h =
    increased _ (
      raised write_line _ write_line-KeepsLevel (raised g decrease_indentation h (λ n. ([], refl))))

nested : (s : Stmt) (g : Writer) → KeepsLevel g → KeepsLevel (generate_nested s g)
unfolding generate_nested
nested (block_statement ss) g h = both write_line g write_line-KeepsLevel h
nested (if_statement c t e) g h = in_braces-KeepsLevel g h
nested (for_statement i c u b p v) g h = in_braces-KeepsLevel g h
nested (expr_statement e) g h = on_new_line g h
nested (comment_statement t) g h = on_new_line g h
nested (return_statement e) g h = on_new_line g h

pub written : (ps : List Piece) (h : Writer) → KeepsLevel h → KeepsLevel (write ps >> h)
written ps h k = both (write ps) h (write-KeepsLevel ps) k

pragma-KeepsLevel : (p v : Bool) → KeepsLevel (pragma p v)
unfolding pragma ◌>>◌ write write_line
pragma-KeepsLevel true true n = (_, refl)
pragma-KeepsLevel true false n = (_, refl)
pragma-KeepsLevel false true n = (_, refl)
pragma-KeepsLevel false false n = (_, refl)

mutual
  unfolding generate_stmt

  statement : (s : Stmt) → KeepsLevel (generate_stmt s)
  statement (block_statement ss) = braces (generate_stmts ss) (statements ss)
  statement (expr_statement e) = written (generate e) _ (write-KeepsLevel _)
  statement (if_statement c t e) = written _ _ (
      written _ _ (
        written _ _
          (both _ (generate_else e) (nested t (generate_stmt t) (statement t)) (else_part e))))
  statement (for_statement i c u b p v) = both (pragma p v) _ (pragma-KeepsLevel p v) (
      written _ _ (
        written _ _ (
          written _ _ (
            written _ _ (
              written _ _
                (written _ _ (written _ _ (nested b (generate_stmt b) (statement b)))))))))
  statement (comment_statement t) = write-KeepsLevel _
  statement (return_statement none) = write-KeepsLevel _
  statement (return_statement (some e)) = written _ _ (written _ _ (write-KeepsLevel _))

  statements : (ss : Stmts) → KeepsLevel (generate_stmts ss)
  statements no_stmts = write-KeepsLevel []
  statements (more_stmts s ss) =
      both write_line _ write_line-KeepsLevel
        (both (generate_stmt s) (generate_stmts ss) (statement s) (statements ss))

  else_part : (e : OptStmt) → KeepsLevel (generate_else e)
  else_part no_stmt = write-KeepsLevel []
  else_part (some_stmt s) =
      both write_line _ write_line-KeepsLevel
        (written _ _ (nested s (generate_stmt s) (statement s)))

-- At each level of indentation a statement is written without a failing assertion, and leaves the level as
-- it was.
pub generate_stmt-level :
    (s : Stmt) (level : ℕ) → (ps : List Piece) × (generate_stmt s level ≡ some (level, ps))
generate_stmt-level s level = statement s level
