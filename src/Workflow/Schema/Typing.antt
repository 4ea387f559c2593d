-- ===== src/Workflow/Schema/Typing.antt =====
-- What a value must be for a schema of server/internal/workflow/schema.go, and that `validate` decides
-- it.
use auto_dev_os.Base.{
  String, ◌≡◌, sym, subst, true, false, Option, none, some, [], ◌∷◌, Memᴰ, arith, inl, inr,
  Option-cases, Bool-cases,
}
use auto_dev_os.Base.Dict.{Dict, lookup}
use auto_dev_os.Workflow.Schema.{
  GoType, go_string, go_int, go_int64, go_float64, go_float32, go_bool, any_slice, string_slice,
  any_map, Value, Object, FieldType, field_string, field_number, field_bool, field_array,
  field_object, other, FieldSchema, matches_type, validate_field, validate,
}

-- A Go type is one of those of a field's type.
pub data Matches : GoType → FieldType → Type 0 where
  text : Matches go_string field_string
  whole : Matches go_int field_number
  whole64 : Matches go_int64 field_number
  float64 : Matches go_float64 field_number
  float32 : Matches go_float32 field_number
  truth : Matches go_bool field_bool
  values : Matches any_slice field_array
  texts : Matches string_slice field_array
  object : Matches any_map field_object
  anything : {kind : GoType} {name : String} → Matches kind (other name)

-- The value of a field: one of its type, or none where it is not required.
unfoldable pub Fits : FieldSchema → Option Value → Type 0
Fits field none = field.required ≡ false
Fits field (some raw) = Matches raw.kind field.type

-- An object that has all the fields.
abbrev pub HasType : Dict FieldSchema → Object → Type 0
HasType fields o =
    (name : String) (field : FieldSchema) → Memᴰ (name, field) fields → Fits field (lookup name o)

Matches_of_test :
    (kind : GoType) (type : FieldType) → matches_type kind type ≡ true → Matches kind type
unfolding matches_type
Matches_of_test go_string field_string h = text
Matches_of_test go_int field_number h = whole
Matches_of_test go_int64 field_number h = whole64
Matches_of_test go_float64 field_number h = float64
Matches_of_test go_float32 field_number h = float32
Matches_of_test go_bool field_bool h = truth
Matches_of_test any_slice field_array h = values
Matches_of_test string_slice field_array h = texts
Matches_of_test any_map field_object h = object
Matches_of_test kind (other t) h = anything
Matches_of_test kind type h = cc

validate_field-Fits :
    (name : String) (field : FieldSchema) (o : Object)
    → validate_field name field o ≡ none
    → Fits field (lookup name o)
unfolding validate_field Fits
validate_field-Fits name field o h = elim (Option-cases (lookup name o)) [
  | inl absent ↦ rw (absent) ground arith
  | inr (raw, found) ↦ rw (found) (elim (Bool-cases (matches_type raw.kind field.type)) [
    | inl right ↦ Matches_of_test raw.kind field.type right
    | inr wrong ↦ cc (rw (found, wrong, validate_field) at h)
  ])
]

-- A value that the schema accepts has all its fields, each of its type.
pub validate-HasType :
    (fields : Dict FieldSchema) (o : Object) → validate fields o ≡ none → HasType fields o
unfolding validate
validate-HasType [] o h name field m = elim m [ ]
validate-HasType ((n, f) ∷ rest) o h name field m = elim (Option-cases (validate_field n f o)) [
  | inr (e, bad) ↦ cc (rw (bad, validate) at h)
  | inl good ↦ elim m [
    | Memᴰ.head e ↦ subst (λ p. Fits p.1 (lookup p.0 o)) (sym e) (validate_field-Fits n f o good)
    | Memᴰ.tail later ↦ validate-HasType rest o (rw (good, validate) at h) name field later
  ]
]
