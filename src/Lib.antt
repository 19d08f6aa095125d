-- ===== src/Lib.antt =====
-- Arrp, a compiler for a language of infinite arrays: verification of parts of the compiler and of the
-- interface that its programs are linked with.
--
-- A program is parsed to expressions, which are typed (frontend/type_check.cpp over common/primitives.cpp
-- and common/func_types.cpp), turned into a polyhedral model and scheduled; the C++ target
-- (cpp/cpp_target.cpp, cpp/cpp_from_polyhedral.cpp) then lays out a buffer for each array and generates the
-- code of a period. The interfaces (interface/) feed the generated code: they move blocks of items between
-- channels and the program.
--
-- Primitive    common/primitives.hpp and .cpp: `PrimitiveType`, `PrimitiveOp`; Primitive/Order is
--              `operator<` and `operator<=`, Primitive/CommonType `common_type`, Primitive/ResultType
--              `result_type` with a function for each case of its switch, Primitive/TypeName and
--              Primitive/OpName the names. An exception `no_type` is `none`.
-- FuncType     common/func_types.hpp and .cpp: the types of expressions as a data type, null pointers
--              included; FuncType/Equality is `operator==` and `operator<=`, where `none` is the
--              dereference of a null pointer, FuncType/ArraySize `common_array_size`, FuncType/Construct
--              the constructor of `array_type`.
-- Functional   common/functional_model.hpp: the expressions that the passes on constants and on index expressions
--              read, as a tree; an identifier stands with its expression.
-- TypeCheck    frontend/type_check.cpp, for parts whose types are known, with an exception as a value
--              (TypeCheck/Typed): TypeCheck/Primitive is `visit_primitive`, TypeCheck/Array the concatenations,
--              enumerations and case expressions, TypeCheck/Access `visit_array_app` and `visit_array_size`,
--              TypeCheck/Function type expressions, externals and `visit_func_app`.
-- ReferenceAnalysis  frontend/reference_analysis.cpp with the visitor of common/func_model_visitor.hpp: an expression
--              is the tree of what the visitor visits, an identifier a number, and the program gives the expression of
--              each number. The fuel counts the depth of calls of `process`; the identifiers on its stack
--              are different, so that one more than there are identifiers is enough.
-- PrimReduction  frontend/prim_reduction.cpp: `reduce_primitive`, and the visit of an expression that applies it.
-- LinearExpr   frontend/linear_expr_gen.cpp: the check that an index expression is affine, and
--              frontend/array_to_isl.cpp: `to_affine_expr`. LinearExpr/Constraint is `ensure_contraint` and
--              `to_affine_set`.
-- ArrayTranspose  frontend/array_transpose.cpp: the order of the dimensions, and the variables and arguments in
--              that order.
-- Context      utility/context.hpp: the stack of scopes; a pointer to a scope is the number of scopes below
--              it, so that the loop of `find` goes down the stack.
-- Names        frontend/name_provider.hpp (Names/NameProvider) and cpp/name_mapper.cpp (Names/NameMapper): the
--              names that the compiler makes, with the state of each as a record.
-- Interface    interface/linear_buffer.h (Interface/LinearBuffer), interface/jack/target/buffer.h
--              (Interface/CircularBuffer), interface/raw/interface.h (Interface/OutputStream,
--              Interface/InputStream) and its channels with interface/raw/main.cpp (Interface/Channel). A
--              file is the list of its items. An access out of bounds is `none`.
-- CppTarget    cpp/cpp_target.cpp and cpp/cpp_from_polyhedral.cpp: the layout of a buffer
--              (`buffer_analysis`), the index of an access (`generate_buffer_access`) and the step after
--              a period (`advance_buffers`), run on a memory.
--              CppTarget/Stack is the choice of the buffers that stand on the stack.
-- CppGen       utility/cpp-gen.hpp and .cpp: the operators with their precedences, CppGen/Expression how an
--              expression is written, CppGen/Statement how a statement is, with the level of indentation,
--              and CppGen/Module functions, classes, namespaces and modules.
--              What is written is a list of pieces; CppGen/Grammar is the grammar of C++ over these.
-- Common       what the parts share: tests on numbers, list lemmas, integers over the natural numbers, and
--              texts, with the decimal digits of a number (Common/Text).
--
-- Integers of the C++ code are numbers without a bound here; positions and sizes of buffers are natural
-- numbers; the conversions to `int` of sizes and dimensions are written out (`to_int` of Common/Int), and so
-- are the masks of buffer indices (`wrap` of CppTarget/Buffer, with Common/Bits). `std::sort` is an insertion sort.
-- Rounding with floating-point numbers in `buffer_analysis` is a parameter (`Rounding`), and so are the integers of
-- GMP (`Gmp`) and the expressions of isl (`Isl`), with what is documented of them as named laws. An error
-- of isl is `none`; its divisions are used by what is documented for positive divisors alone. What a
-- period computes is a relation (`Runs`): it may write each item that it accesses, or leave it. Each
-- loop is recursion on a list or on the number of its rounds; the digits of a number are computed on
-- fuel, one more than the number, and a theorem of Common/Text reads them back; `process` of
-- ReferenceAnalysis is on fuel as well, more than the program has identifiers.
--
-- Not modelled: the parser and the scanner, which are generated; the polyhedral passes, which are calls of
-- isl; the reduction of arrays and
-- functions, and the cleanup of scopes; how the pieces of an expression stand together as one text, but for
-- operators that merge with the text behind them; the driver and the command line; the vendored libraries;
-- and the code that is left out of the build (frontend/array_bounding.cpp,
-- polyhedral/modulo_avoidance.cpp, llvm/).
pub mod Common
pub mod Context
pub mod Primitive
pub mod FuncType
pub mod Functional
pub mod ReferenceAnalysis
pub mod TypeCheck
pub mod PrimReduction
pub mod LinearExpr
pub mod ArrayTranspose
pub mod Names
pub mod Interface
pub mod CppTarget
pub mod CppGen
