-- ===== src/CppGen.antt =====
-- utility/cpp-gen.hpp and utility/cpp-gen.cpp: the operators of C++, their precedences and texts.
pub mod Expression
pub mod Grammar
pub mod Statement
pub mod Level
pub mod Module
mod Tests
use Prim.Native.String.{String}
use arrp.Common.{ℕ, List, Bool, true, false}
use arrp.Common.Int.{ℤ, pos, negsuc}

pub data Op : Type 0 where
  scope_resolution function_call array_subscript cast : Op
  member_of_reference member_of_pointer dereference address : Op
  logic_neg logic_and logic_or bit_neg bit_and bit_or bit_xor bit_left bit_right : Op
  lesser lesser_or_equal greater greater_or_equal equal not_equal : Op
  mult div rem add sub u_plus u_minus post_incr post_decr pre_incr pre_decr : Op
  assign assign_add assign_sub assign_mult assign_div assign_rem conditional : Op

-- The row of an operator in the table of `op_precedence_map`.
abbrev pub rank : Op → ℕ
rank scope_resolution = 0
rank post_incr = 1
rank post_decr = 1
rank function_call = 1
rank array_subscript = 1
rank member_of_reference = 1
rank member_of_pointer = 1
rank pre_incr = 2
rank pre_decr = 2
rank u_plus = 2
rank u_minus = 2
rank logic_neg = 2
rank bit_neg = 2
rank cast = 2
rank dereference = 2
rank address = 2
rank mult = 3
rank div = 3
rank rem = 3
rank add = 4
rank sub = 4
rank bit_left = 5
rank bit_right = 5
rank lesser = 6
rank lesser_or_equal = 6
rank greater = 6
rank greater_or_equal = 6
rank equal = 7
rank not_equal = 7
rank bit_and = 8
rank bit_xor = 9
rank bit_or = 10
rank logic_and = 11
rank logic_or = 12
rank assign = 13
rank assign_add = 13
rank assign_sub = 13
rank assign_mult = 13
rank assign_div = 13
rank assign_rem = 13
rank conditional = 13

-- `precedence` of an operator: -(r + 1).
abbrev pub op_precedence : Op → ℤ
op_precedence op = negsuc (rank op)

abbrev pub op_text : Op → String
op_text scope_resolution = "::"
op_text member_of_reference = "."
op_text member_of_pointer = "->"
op_text dereference = "*"
op_text address = "&"
op_text logic_neg = "!"
op_text logic_and = "&&"
op_text logic_or = "||"
op_text bit_neg = "~"
op_text bit_and = "&"
op_text bit_or = "|"
op_text bit_xor = "^"
op_text bit_left = "<<"
op_text bit_right = ">>"
op_text lesser = "<"
op_text lesser_or_equal = "<="
op_text greater = ">"
op_text greater_or_equal = ">="
op_text equal = "=="
op_text not_equal = "!="
op_text mult = "*"
op_text div = "/"
op_text rem = "%"
op_text add = "+"
op_text sub = "-"
op_text u_plus = "+"
op_text u_minus = "-"
op_text post_incr = "++"
op_text post_decr = "--"
op_text pre_incr = "++"
op_text pre_decr = "--"
op_text assign = "="
op_text assign_add = "+="
op_text assign_sub = "-="
op_text assign_mult = "*="
op_text assign_div = "/="
op_text assign_rem = "%="
op_text _ = ""
