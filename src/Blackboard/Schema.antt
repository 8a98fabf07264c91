-- ===== src/Blackboard/Schema.antt =====
-- bteng/blackboard/blackboard.py: validate_against_schema. A type hint is the name of one class.
use bteng.Prelude.{String, Bool, ◌||◌, Option, none, some, List, [], ◌∷◌, if◌then◌else◌, str_eq}
use bteng.Prelude.Dict.{lookup}
use bteng.Value.{Value, bool, type_name}
use bteng.Blackboard.{Entry, PortSchema}

pub data SchemaError : Type 0 where
  missing : String → SchemaError
  wrong_type : (name expected got : String) → SchemaError

-- `isinstance(v, t)` for a class t given by its name.
unfoldable pub is_instance : Value → String → Bool
is_instance (bool b) t = str_eq t "bool" || str_eq t "int" || str_eq t "object"
is_instance v t = str_eq t (type_name v) || str_eq t "object"

unfoldable pub check_type : String → Option String → Value → Option SchemaError
unfolding is_instance
check_type name none v = none
check_type name (some t) v =
    if is_instance v t then none else some (wrong_type name t (type_name v))

unfoldable pub local_value : Option Entry → Option Value
local_value none = none
local_value (some e) = e.value

unfoldable pub check_port : List (String × Entry) → String → PortSchema → Option SchemaError
unfolding local_value check_type
check_port entries name s =
    if s.required
    then elim (local_value (lookup name entries)) [
      | none ↦ some (missing name)
      | some v ↦ check_type name s.type_hint v
    ]
    else none

-- validate_against_schema: the first error, `none` for (True, "").
unfoldable pub validate_against_schema :
    List (String × Entry) → List (String × PortSchema) → Option SchemaError
unfolding check_port
validate_against_schema entries [] = none
validate_against_schema entries ((name, s) ∷ rest) = elim (check_port entries name s) [
  | none ↦ validate_against_schema entries rest
  | some e ↦ some e
]
