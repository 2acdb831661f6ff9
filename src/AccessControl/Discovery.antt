-- ===== src/AccessControl/Discovery.antt =====
-- `discover_cross_document_paths` of access_control/mod.rs: what has to be fetched before a condition
-- is evaluated. The set of paths is a list with no path twice.
pub mod Laws
pub mod Reads
use embyr_rs.Base.{Bool, Option, List, [], ◌∷◌, if◌then◌else◌, any, Result, ok, err}
use embyr_rs.Base.Text.{Text, text_eq}
use embyr_rs.Base.Dict.{Dict}
use embyr_rs.AccessControl.Syntax.{
  PathTemplate, Operand, Operands, Condition, AuthContext, EvalContext,
}
use embyr_rs.AccessControl.Resolve.{FieldMissing, resolve_path_template}

-- `BTreeSet::insert`.
unfoldable pub insert_path : Text → List Text → List Text
insert_path p paths = if any (text_eq p) paths then paths else p ∷ paths

-- `if let Ok(path) = … { paths.insert(path); }`
unfoldable pub insert_resolved : Result FieldMissing Text → List Text → List Text
unfolding insert_path
insert_resolved (ok p) paths = insert_path p paths
insert_resolved (err e) paths = paths

module _ {F : Type 0} (auth : Option (AuthContext F)) (leaf : Option Text)
    (ancestors : Dict Text) where
  unfoldable mutual
    unfolding insert_resolved

    pub walk_operand : Operand F → List Text → List Text
    walk_operand (Operand.cross_document_exists template) paths =
        insert_resolved (resolve_path_template auth leaf ancestors template) paths
    walk_operand (Operand.cross_document_get template field) paths =
        insert_resolved (resolve_path_template auth leaf ancestors template) paths
    walk_operand (Operand.arithmetic left op right) paths =
        walk_operand right (walk_operand left paths)
    walk_operand (Operand.list_literal items) paths = walk_items items paths
    walk_operand _ paths = paths

    pub walk_items : Operands F → List Text → List Text
    walk_items Operands.no_operands paths = paths
    walk_items (Operands.operand item items) paths = walk_items items (walk_operand item paths)

  unfoldable pub walk_condition : Condition F → List Text → List Text
  unfolding walk_operand
  walk_condition (Condition.literal b) paths = paths
  walk_condition (Condition.not inner) paths = walk_condition inner paths
  walk_condition (Condition.and left right) paths = walk_condition right (walk_condition left paths)
  walk_condition (Condition.or left right) paths = walk_condition right (walk_condition left paths)
  walk_condition (Condition.compare left op right) paths =
      walk_operand right (walk_operand left paths)
  walk_condition (Condition.is_in left list) paths = walk_operand list (walk_operand left paths)

  unfoldable pub discover_cross_document_paths : Condition F → List Text
  unfolding walk_condition
  discover_cross_document_paths condition = walk_condition condition []
