-- ===== src/Derive/Expand.antt =====
-- `impl_uavcan_struct` of uavcan-derive/src/lib.rs: what it makes of the input of the derive macro.
use Prim.Native.String.{String}
use text.Mathlib.Text.{◌==◌}
use cyphal_rs.Base.{
  ℕ, ◌+◌, Option, none, some, List, [], ◌∷◌, if◌then◌else◌, Result, ok, panic, ◌>>=◌,
}
use cyphal_rs.Derive.Serializable.{Serializable}
use cyphal_rs.Derive.Syn.{Body, enum, named, unit, other, NameValue, Syn, Regex}
use cyphal_rs.Derive.Classify.{
  UavcanType, primitive_type, dynamic_array, static_array, struct, classify_type,
  array_from_dynamic,
}

-- The tokens that the attributes give.
pub record Attributes : Type 0 where
  pub dsdl_signature : String
  pub data_type_signature : String
  pub crate_name : String

abbrev pub default_attributes : Attributes
default_attributes = record {
  dsdl_signature = "0x00";
  data_type_signature = "0x00";
  crate_name = "uavcan";
}

module _ {E : Type 0} where
  -- A literal that is no string makes the macro panic.
  abbrev pub with_literal : Option String → (String → Attributes) → Result E Attributes
  with_literal none change = panic
  with_literal (some value) change = ok (change value)

  unfoldable pub read_attribute : NameValue → Attributes → Result E Attributes
  read_attribute attr attributes =
      if attr.ident == "DSDLSignature"
      then with_literal attr.lit_str (λ value. record attributes { dsdl_signature = value })
      else if attr.ident == "DataTypeSignature"
      then with_literal attr.lit_str (λ value. record attributes { data_type_signature = value })
      else if attr.ident == "UavcanCrateName"
      then with_literal attr.lit_str (λ value. record attributes { crate_name = value })
      else ok attributes

  unfoldable pub read_attributes : List (Option NameValue) → Attributes → Result E Attributes
  read_attributes [] attributes = ok attributes
  read_attributes (none ∷ attrs) attributes = read_attributes attrs attributes
  read_attributes (some attr ∷ attrs) attributes = do
    attributes' ← read_attribute attr attributes
    read_attributes attrs attributes'

-- The code for the body: of a struct with named fields, its fields as the code treats them; of an
-- enum, its number of flattened fields. The code of a unit struct does not compile.
pub data Code (S D : Type 0) : Type 1 where
  struct_code : List (Serializable S D) → Code S D
  enum_code : ℕ → Code S D
  unit_code : Code S D

pub record Implementation (S D : Type 0) : Type 1 where
  pub attributes : Attributes
  pub code : Code S D

-- What the compiler finds in the crate of this name: the implementation of `Serializable` by a type,
-- and that by `Dynamic` of a type, or of none.
pub record Impls (S D Ty : Type 0) : Type 1 where
  pub of_type : String → Ty → Serializable S D
  pub of_dynamic : String → Option Ty → Serializable S D

module _ {S D : Type 0} where
  -- `Dynamic` has the constants, and the type itself the rest.
  abbrev pub dynamic_field : Serializable S D → Serializable S D → Serializable S D
  dynamic_field own dynamic = record own {
    bit_length_min = dynamic.bit_length_min;
    flattened_fields_number = dynamic.flattened_fields_number;
  }

module _ {S D Ty : Type 0} (impls : Impls S D Ty) where
  -- The flattened fields of a variant, by the type of its field.
  abbrev pub variant_flattened : String → Ty → UavcanType → ℕ
  variant_flattened crate_name ty struct = (impls.of_type crate_name ty).flattened_fields_number
  variant_flattened crate_name ty primitive_type = 1
  variant_flattened crate_name ty dynamic_array = 1
  variant_flattened crate_name ty static_array = 1

module _ {E S D : Type 0} (syn : Syn) (regex : Regex) (impls : Impls S D syn.Ty) where
  abbrev pub field_of_kind : String → syn.Ty → UavcanType → Result E (Serializable S D)
  field_of_kind crate_name ty primitive_type =
      let own = impls.of_type crate_name ty in ok (record own { flattened_fields_number = 1 })
  field_of_kind crate_name ty static_array = ok (impls.of_type crate_name ty)
  field_of_kind crate_name ty dynamic_array = do
    array_type ← array_from_dynamic syn regex ty
    ok (dynamic_field (impls.of_type crate_name ty) (impls.of_dynamic crate_name array_type))
  field_of_kind crate_name ty struct = ok (impls.of_type crate_name ty)

  -- The loop over the fields of a struct.
  unfoldable pub struct_fields : String → List syn.Ty → Result E (List (Serializable S D))
  struct_fields crate_name [] = ok []
  struct_fields crate_name (field_type ∷ fields) = do
    kind ← classify_type syn regex field_type
    field ← field_of_kind crate_name field_type kind
    rest ← struct_fields crate_name fields
    ok (field ∷ rest)

  -- The loop over the variants of an enum, each of which must have one field.
  unfoldable pub enum_flattened : String → List (List syn.Ty) → Result E ℕ
  enum_flattened crate_name [] = ok 0
  enum_flattened crate_name ((field_type ∷ []) ∷ variants) = do
    kind ← classify_type syn regex field_type
    rest ← enum_flattened crate_name variants
    ok (variant_flattened impls crate_name field_type kind + rest)
  enum_flattened crate_name (fields ∷ variants) = panic

  unfoldable pub generate : String → Body syn.Ty → Result E (Code S D)
  generate crate_name (enum variants) = do
    flattened ← enum_flattened crate_name variants
    ok (enum_code flattened)
  generate crate_name (named fields) = do
    types ← struct_fields crate_name fields
    ok (struct_code types)
  generate crate_name unit = ok unit_code
  generate crate_name other = panic

  unfoldable pub impl_uavcan_struct : syn.DeriveInput → Result E (Implementation S D)
  impl_uavcan_struct ast = do
    attributes ← read_attributes (syn.attrs ast) default_attributes
    code ← generate attributes.crate_name (syn.body ast)
    ok (record { attributes = attributes; code = code })
