-- ===== src/CppGen/Statement.antt =====
-- utility/cpp-gen.hpp and utility/cpp-gen.cpp: statements of C++, and how they are written with the state of the
-- indentation.
use Prim.Native.String.{String}
use arrp.Common.{ℕ, zero, suc, Bool, ◌||◌, if◌then◌else◌, List, [], ◌∷◌, ◌++◌, Option, none, some}
use arrp.CppGen.Expression.{Piece, text, new_line, Expr, generate}

-- Code that writes pieces and changes the level of indentation; `none` is an assertion that fails.
abbrev pub Writer : Type 0
Writer = ℕ → Option (ℕ × List Piece)

unfoldable pub write : List Piece → Writer
write ps level = some (level, ps)

-- `state::new_line`.
unfoldable pub write_line : Writer
write_line level = some (level, new_line level ∷ [])

unfoldable pub increase_indentation : Writer
increase_indentation level = some (suc level, [])

unfoldable pub decrease_indentation : Writer
decrease_indentation zero = none
decrease_indentation (suc level) = some (level, [])

abbrev pub append_pieces : List Piece → Option (ℕ × List Piece) → Option (ℕ × List Piece)
append_pieces ps none = none
append_pieces ps (some (level, qs)) = some (level, ps ++ qs)

abbrev pub continue : Option (ℕ × List Piece) → Writer → Option (ℕ × List Piece)
continue none h = none
continue (some (level, ps)) h = append_pieces ps (h level)

infixr 4 ◌>>◌
unfoldable pub ◌>>◌ : Writer → Writer → Writer
(g >> h) level = continue (g level) h

mutual
  pub data Stmt : Type 0 where
    block_statement : Stmts → Stmt
    expr_statement : Expr → Stmt
    if_statement : Expr → Stmt → OptStmt → Stmt
    for_statement : Expr → Expr → Expr → Stmt → (is_parallel is_vector : Bool) → Stmt
    comment_statement : String → Stmt
    return_statement : Option Expr → Stmt

  pub data Stmts : Type 0 where
    no_stmts : Stmts
    more_stmts : Stmt → Stmts → Stmts

  pub data OptStmt : Type 0 where
    no_stmt : OptStmt
    some_stmt : Stmt → OptStmt

-- A statement in braces, each on a line of its own.
abbrev pub in_braces : Writer → Writer
in_braces g =
    write_line
    >> write (text "{" ∷ [])
    >> increase_indentation
    >> write_line
    >> g
    >> decrease_indentation
    >> write_line
    >> write (text "}" ∷ [])

-- `generate_nested`, for what the statement writes.
unfoldable pub generate_nested : Stmt → Writer → Writer
generate_nested (block_statement ss) g = write_line >> g
generate_nested (if_statement c t e) g = in_braces g
generate_nested (for_statement i c u b p v) g = in_braces g
generate_nested _ g = increase_indentation >> write_line >> g >> decrease_indentation

-- The directive in front of a loop.
unfoldable pub pragma : Bool → Bool → Writer
pragma is_parallel is_vector =
    if is_parallel || is_vector
    then (write (text "#pragma omp" ∷ [])
        >> write (if is_parallel then text " parallel for" ∷ [] else [])
        >> write (if is_vector then text " simd" ∷ [] else [])
        >> write_line)
    else write []

unfoldable mutual
  unfolding generate_nested

  pub generate_stmt : Stmt → Writer
  generate_stmt (block_statement ss) =
      write (text "{" ∷ [])
      >> increase_indentation
      >> generate_stmts ss
      >> decrease_indentation
      >> write_line
      >> write (text "}" ∷ [])
  generate_stmt (expr_statement e) = write (generate e) >> write (text ";" ∷ [])
  generate_stmt (if_statement c t e) =
      write (text "if (" ∷ [])
      >> write (generate c)
      >> write (text ") " ∷ [])
      >> generate_nested t (generate_stmt t)
      >> generate_else e
  generate_stmt (for_statement i c u b is_parallel is_vector) =
      pragma is_parallel is_vector
      >> write (text "for (" ∷ [])
      >> write (generate i)
      >> write (text "; " ∷ [])
      >> write (generate c)
      >> write (text "; " ∷ [])
      >> write (generate u)
      >> write (text ") " ∷ [])
      >> generate_nested b (generate_stmt b)
  generate_stmt (comment_statement t) = write (text "// " ∷ text t ∷ [])
  generate_stmt (return_statement none) = write (text "return" ∷ [])
  generate_stmt (return_statement (some e)) =
      write (text "return" ∷ text " " ∷ []) >> write (generate e) >> write (text ";" ∷ [])

  pub generate_stmts : Stmts → Writer
  generate_stmts no_stmts = write []
  generate_stmts (more_stmts s ss) = write_line >> generate_stmt s >> generate_stmts ss

  pub generate_else : OptStmt → Writer
  generate_else no_stmt = write []
  generate_else (some_stmt s) =
      write_line >> write (text "else" ∷ []) >> generate_nested s (generate_stmt s)
