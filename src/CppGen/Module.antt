-- ===== src/CppGen/Module.antt =====
-- utility/cpp-gen.hpp and utility/cpp-gen.cpp: functions, classes, namespaces and modules of C++, and how they are
-- written.
pub mod Indentation
use Prim.Native.String.{String}
use arrp.Common.{
  ℕ, zero, suc, ltb, Bool, true, false, if◌then◌else◌, List, [], ◌∷◌, ◌++◌, Option, none, some,
}
use arrp.CppGen.Expression.{
  Piece, text, CppType, generate_type, VariableDecl, generate_decl, generate,
}
use arrp.CppGen.Statement.{
  Writer, write, write_line, increase_indentation, decrease_indentation, ◌>>◌, Stmt, Stmts,
  block_statement, generate_stmt,
}

pub data ClassKey : Type 0 where
  class_class struct_class : ClassKey

pub data AccessType : Type 0 where
  default_access private_access public_access : AccessType

pub record FuncSignature : Type 0 where
  pub is_inline : Bool
  pub name : Option String
  pub type : CppType
  pub template_parameters : List String
  pub parameters : List VariableDecl

-- What stands in a module, a namespace or a class. An alignment is the text of the number, if it is not 0; an
-- empty name is `none`.
mutual
  pub data Member : Type 0 where
    include_dir : (is_local : Bool) (filename : String) → Member
    namespace_node : Option String → Members → Member
    extern_c_node : Members → Member
    class_node : ClassKey → List String → Option String → Option String → Sections → Member
    custom_decl using_decl : String → Member
    data_field : VariableDecl → Member
    array_field : VariableDecl → List String → Member
    func_decl : FuncSignature → Member
    func_def : (is_inline : Bool) → FuncSignature → Stmts → Member

  pub data Members : Type 0 where
    no_members : Members
    more_members : Member → Members → Members

  pub data Sections : Type 0 where
    no_sections : Sections
    more_sections : AccessType → Members → Sections → Sections

abbrev optional {ℓ} : {A : Type ℓ} → Option A → (A → List Piece) → List Piece
optional none f = []
optional (some a) f = f a

-- The loop of `class_node::generate` over the template parameters, from the i-th on.
unfoldable pub class_parameters : ℕ → List String → List Piece
class_parameters i [] = []
class_parameters i (p ∷ ps) =
    (if ltb 0 i then text ", " ∷ [] else [])
    ++ (text "typename " ∷ text p ∷ class_parameters (suc i) ps)

unfoldable pub class_template : List String → Writer
class_template [] = write []
class_template (p ∷ ps) =
    write (text "template <" ∷ [])
    >> write (class_parameters 0 (p ∷ ps))
    >> write (text ">" ∷ [])
    >> write_line

-- The loop of `func_signature::generate`, whose counter stays as it is.
unfoldable pub func_parameters : ℕ → List String → List Piece
func_parameters i [] = []
func_parameters i (p ∷ ps) =
    text "typename " ∷ text p ∷ (if ltb 0 i then text ", " ∷ [] else []) ++ func_parameters i ps

unfoldable pub func_template : List String → Writer
func_template [] = write []
func_template (p ∷ ps) =
    write (text "template <" ∷ [])
    >> write (func_parameters 0 (p ∷ ps))
    >> write (text ">" ∷ [])
    >> write_line

-- The parameters, with a comma behind each but the last. (They are different objects.)
unfoldable pub decl_list : List VariableDecl → List Piece
decl_list [] = []
decl_list (d ∷ []) = generate_decl d
decl_list (d ∷ ds) = generate_decl d ++ (text ", " ∷ decl_list ds)

abbrev parameter_list : List VariableDecl → List Piece
parameter_list [] = text "()" ∷ []
parameter_list ds = text "( " ∷ decl_list ds ++ text " )" ∷ []

unfoldable pub generate_signature : FuncSignature → Writer
generate_signature f =
    func_template f.template_parameters
    >> write (if f.is_inline then text "inline " ∷ [] else [])
    >> write (generate_type f.type)
    >> write (optional f.name (λ n. text " " ∷ text n ∷ []))
    >> write (parameter_list f.parameters)

abbrev key_text : ClassKey → String
key_text class_class = "class"
key_text struct_class = "struct"

unfoldable pub generate_access : AccessType → Writer
generate_access public_access = write_line >> write (text "public:" ∷ [])
generate_access private_access = write_line >> write (text "private:" ∷ [])
generate_access default_access = write []

-- `if (!sections.empty()) state.new_line(stream)`.
unfoldable pub line_for : Sections → Writer
line_for no_sections = write []
line_for (more_sections a ms ss) = write_line

abbrev dimensions : List String → List Piece
dimensions [] = []
dimensions (d ∷ ds) = text "[" ∷ text d ∷ text "]" ∷ dimensions ds

unfoldable mutual
  unfolding generate_stmt

  pub generate_member : Member → Writer
  generate_member (include_dir is_local filename) = write (
      text "#include "
      ∷ text (if is_local then "\"" else "<")
      ∷ text filename
      ∷ text (if is_local then "\"" else ">")
      ∷ [])
  generate_member (namespace_node name ms) =
      write_line
      >> write (text "namespace " ∷ optional name (λ n. text n ∷ text " " ∷ []))
      >> write (text "{" ∷ [])
      >> generate_members ms
      >> write_line
      >> write (text "} // namespace" ∷ optional name (λ n. text " " ∷ text n ∷ []))
      >> write_line
  generate_member (extern_c_node ms) =
      write_line
      >> write (text "extern \"C\" {" ∷ [])
      >> generate_members ms
      >> write_line
      >> write (text "} // extern \"C\"" ∷ [])
      >> write_line
  generate_member (class_node key parameters alignment name sections) =
      write_line
      >> class_template parameters
      >> write (text (key_text key) ∷ [])
      >> write (optional alignment (λ n. text " alignas(" ∷ text n ∷ text ")" ∷ []))
      >> write (optional name (λ n. text " " ∷ text n ∷ []))
      >> line_for sections
      >> write (text "{" ∷ [])
      >> generate_sections sections
      >> line_for sections
      >> write (text "};" ∷ [])
  generate_member (custom_decl t) = write (text t ∷ text ";" ∷ [])
  generate_member (using_decl name) = write (text "using " ∷ text name ∷ text ";" ∷ [])
  generate_member (data_field d) = write (generate_decl d) >> write (text ";" ∷ [])
  generate_member (array_field d size) =
      write (generate_decl d) >> write (dimensions size) >> write (text ";" ∷ [])
  generate_member (func_decl f) = generate_signature f >> write (text ";" ∷ [])
  generate_member (func_def is_inline f body) =
      write (if is_inline then text "inline " ∷ [] else [])
      >> generate_signature f
      >> write_line
      >> generate_stmt (block_statement body)

  -- The loop of a namespace and of a section of a class.
  pub generate_members : Members → Writer
  generate_members no_members = write []
  generate_members (more_members m ms) = write_line >> generate_member m >> generate_members ms

  -- `class_section::generate`, for each section.
  pub generate_sections : Sections → Writer
  generate_sections no_sections = write []
  generate_sections (more_sections access ms ss) =
      generate_access access
      >> increase_indentation
      >> generate_members ms
      >> decrease_indentation
      >> generate_sections ss

-- `module::generate`.
unfoldable pub generate_module : Members → Writer
generate_module no_members = write []
generate_module (more_members m ms) = generate_member m >> write_line >> generate_module ms
