-- ===== src/CppGen/Module/Indentation.antt =====
-- utility/cpp-gen.cpp: the level of indentation in what is written for a module.
use Prim.Native.String.{String}
use arrp.Common.{List, [], ◌∷◌}
use arrp.CppGen.Statement.{Writer, write_line, ◌>>◌, block_statement}
use arrp.CppGen.Level.{
  KeepsLevel, both, raised, lowered, increased, written, write-KeepsLevel, write_line-KeepsLevel,
  generate_stmt-level,
}
use arrp.CppGen.Module.{
  FuncSignature, AccessType, public_access, private_access, default_access, Member, Members,
  Sections, include_dir, namespace_node, extern_c_node, class_node, custom_decl, using_decl,
  data_field, array_field, func_decl, func_def, no_members, more_members, no_sections,
  more_sections, class_template, func_template, generate_signature, generate_access, line_for,
  generate_member, generate_members, generate_sections,
}

on_line : (g : Writer) → KeepsLevel g → KeepsLevel (write_line >> g)
on_line g h = both write_line g write_line-KeepsLevel h

class_template-KeepsLevel : (ps : List String) → KeepsLevel (class_template ps)
unfolding class_template
class_template-KeepsLevel [] = write-KeepsLevel []
class_template-KeepsLevel (p ∷ ps) = written _ _ (written _ _ (written _ _ write_line-KeepsLevel))

func_template-KeepsLevel : (ps : List String) → KeepsLevel (func_template ps)
unfolding func_template
func_template-KeepsLevel [] = write-KeepsLevel []
func_template-KeepsLevel (p ∷ ps) = written _ _ (written _ _ (written _ _ write_line-KeepsLevel))

generate_signature-KeepsLevel : (f : FuncSignature) → KeepsLevel (generate_signature f)
unfolding generate_signature
generate_signature-KeepsLevel f =
    both _ _ (func_template-KeepsLevel f.template_parameters)
      (written _ _ (written _ _ (written _ _ (write-KeepsLevel _))))

generate_access-KeepsLevel : (a : AccessType) → KeepsLevel (generate_access a)
unfolding generate_access
generate_access-KeepsLevel public_access = on_line _ (write-KeepsLevel _)
generate_access-KeepsLevel private_access = on_line _ (write-KeepsLevel _)
generate_access-KeepsLevel default_access = write-KeepsLevel []

line_for-KeepsLevel : (ss : Sections) → KeepsLevel (line_for ss)
unfolding line_for
line_for-KeepsLevel no_sections = write-KeepsLevel []
line_for-KeepsLevel (more_sections a ms ss) = write_line-KeepsLevel

mutual
  unfolding generate_member

  member : (m : Member) → KeepsLevel (generate_member m)
  member (include_dir l f) = write-KeepsLevel _
  member (namespace_node n ms) = on_line _ (
      written _ _
        (written _ _ (both _ _ (members ms) (on_line _ (written _ _ write_line-KeepsLevel)))))
  member (extern_c_node ms) =
      on_line _
        (written _ _ (both _ _ (members ms) (on_line _ (written _ _ write_line-KeepsLevel))))
  member (class_node key ps a n ss) = on_line _ (
      both _ _ (class_template-KeepsLevel ps) (
        written _ _ (
          written _ _ (
            written _ _ (
              both _ _ (line_for-KeepsLevel ss) (
                written _ _ (
                  both _ _ (sections ss)
                    (both _ _ (line_for-KeepsLevel ss) (write-KeepsLevel _)))))))))
  member (custom_decl t) = write-KeepsLevel _
  member (using_decl t) = write-KeepsLevel _
  member (data_field d) = written _ _ (write-KeepsLevel _)
  member (array_field d size) = written _ _ (written _ _ (write-KeepsLevel _))
  member (func_decl f) = both _ _ (generate_signature-KeepsLevel f) (write-KeepsLevel _)
  member (func_def i f body) = written _ _ (
      both _ _ (generate_signature-KeepsLevel f)
        (on_line _ (generate_stmt-level (block_statement body))))

  members : (ms : Members) → KeepsLevel (generate_members ms)
  members no_members = write-KeepsLevel []
  members (more_members m ms) = on_line _ (both _ _ (member m) (members ms))

  sections : (ss : Sections) → KeepsLevel (generate_sections ss)
  sections no_sections = write-KeepsLevel []
  sections (more_sections a ms ss) =
      both _ _ (generate_access-KeepsLevel a)
        (increased _ (raised _ _ (members ms) (lowered _ (sections ss))))
