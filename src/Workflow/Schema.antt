-- ===== src/Workflow/Schema.antt =====
-- server/internal/workflow/schema.go: what a step requires of its inputs and outputs.
pub mod Typing
use auto_dev_os.Base.{String, Bool, true, false, Option, none, some, [], ◌∷◌, if◌then◌else◌}
use auto_dev_os.Base.Dict.{Dict, lookup}

-- The dynamic type of a Go value in a `map[string]any`.
pub data GoType : Type 0 where
  go_string go_int go_int64 go_float64 go_float32 go_bool any_slice string_slice any_map go_other :
      GoType

-- A value: its dynamic type, and its content, which the engine passes on unread.
pub record Value : Type 0 where
  pub kind : GoType
  pub content : String

abbrev pub Object : Type 0
Object = Dict Value

-- `FieldType`; `other` is any text that is not one of the five constants.
pub data FieldType : Type 0 where
  field_string field_number field_bool field_array field_object : FieldType
  other : String → FieldType

pub record FieldSchema : Type 0 where
  pub type : FieldType
  pub required : Bool

pub record Schema : Type 0 where
  pub fields : Dict FieldSchema

pub data SchemaError : Type 0 where
  missing : String → SchemaError
  mistyped : String → FieldType → SchemaError

-- `matchesType`
unfoldable pub matches_type : GoType → FieldType → Bool
matches_type go_string field_string = true
matches_type go_int field_number = true
matches_type go_int64 field_number = true
matches_type go_float64 field_number = true
matches_type go_float32 field_number = true
matches_type go_bool field_bool = true
matches_type any_slice field_array = true
matches_type string_slice field_array = true
matches_type any_map field_object = true
matches_type kind (other t) = true
matches_type kind type = false

-- One turn of the loop of `Schema.Validate`.
unfoldable pub validate_field : String → FieldSchema → Object → Option SchemaError
validate_field name field value = elim (lookup name value) [
  | none ↦ if field.required then some (missing name) else none
  | some raw ↦ if matches_type raw.kind field.type then none else some (mistyped name field.type)
]

-- `Schema.Validate`: the first error, in the order in which the map is ranged over.
unfoldable pub validate : Dict FieldSchema → Object → Option SchemaError
validate [] value = none
validate ((name, field) ∷ rest) value = elim (validate_field name field value) [
  | some e ↦ some e
  | none ↦ validate rest value
]
