-- ===== src/Tests/Macro.antt =====
-- The derive macro on small inputs, with concrete types and patterns.
use Prim.Native.String.{String}
use text.Mathlib.Text.{◌==◌}
use cyphal_rs.Base.{
  ℕ, ◌≡◌, refl, Bool, true, false, Option, none, some, List, [], ◌∷◌, if◌then◌else◌, ok, panic,
  arith,
}
use cyphal_rs.Derive.Struct.{finished, serialize}
use cyphal_rs.Derive.Order.{cursor_at}
use cyphal_rs.Derive.Serializable.{complete, Serializable, borrow}
use cyphal_rs.Derive.Syn.{Body, enum, named, other, NameValue, Syn, Regex}
use cyphal_rs.Derive.Classify.{
  primitive_type, dynamic_array, is_unsigned_primitive_type, is_signed_primitive_type,
  is_void_primitive_type, is_float_primitive_type, is_bool_primitive_type, is_primitive_type,
  is_dynamic_array, is_static_array, classify_other, classify_type,
}
use cyphal_rs.Derive.Expand.{
  Attributes, Impls, struct_code, read_attribute, read_attributes, enum_flattened, generate,
}
use cyphal_rs.Derive.Patterns.{Patterns}
use cyphal_rs.Derive.Misclassified.{generate-serialize_panic}

-- Types by name, `Dynamic<[T; n]>`, and `[T; n]`.
data RustType : Type 0 where
  simple : String → RustType
  dynamic array : RustType → RustType

record Input : Type 0 where
  attrs : List (Option NameValue)
  body : Body RustType

abbrev path_of : RustType → Option (List (String × Option (List RustType)))
path_of (simple name) = some ((name, none) ∷ [])
path_of (dynamic ty) = some (("types", none) ∷ (("Dynamic", some (ty ∷ [])) ∷ []))
path_of (array ty) = none

abbrev is_array_type : RustType → Bool
is_array_type (array ty) = true
is_array_type ty = false

abbrev rust : Syn
rust = record {
  Ty = RustType;
  Segment = String × Option (List RustType);
  path = path_of;
  is_array = is_array_type;
  ident = λ segment. segment.0;
  angle_bracketed = λ segment. segment.1;
  DeriveInput = Input;
  attrs = λ input. input.attrs;
  body = λ input. input.body;
}

-- What the patterns match among the names below.
abbrev matches : String → String → Bool
matches pattern name =
    if pattern == "f(16)|(32)|64"
    then (if name == "f32" then true else name == "Node32")
    else if pattern == "bool"
    then name == "bool"
    else false

abbrev regex : Regex
regex = record { new = λ pattern. some (matches pattern) }

abbrev patterns : Patterns regex
patterns = record {
  unsigned = matches "u([2-9]|[1-5][0-9]|6[0-4])";
  signed = matches "i([2-9]|[1-5][0-9]|6[0-4])";
  void = matches "void([1-9]|[1-5][0-9]|6[0-4])";
  float = matches "f(16)|(32)|64";
  bool = matches "bool";
  unsigned_eq = refl;
  signed_eq = refl;
  void_eq = refl;
  float_eq = refl;
  bool_eq = refl;
}

-- A type of `n` flattened fields without bits.
abbrev empty_type : ℕ → Serializable Unit Unit
empty_type n = record {
  Value = Unit;
  bit_length_min = 0;
  flattened_fields_number = n;
  serialize = λ value last_field cursor. (record cursor { flattened_field = n }, finished);
  deserialize =
      λ value last_field cursor. ((value, record cursor { flattened_field = n }), complete);
}

abbrev number_of : RustType → ℕ
number_of (simple name) = if name == "Node32" then 2 else 1
number_of (dynamic ty) = 3
number_of (array ty) = 3

abbrev crate : Impls Unit Unit RustType
crate = record {
  of_type = λ name ty. empty_type (number_of ty);
  of_dynamic = λ name ty. empty_type 3;
}

classify_node : classify_type {E = ⊥} rust regex (simple "Node32") ≡ ok primitive_type
unfolding classify_type is_primitive_type is_unsigned_primitive_type is_signed_primitive_type
    is_void_primitive_type is_float_primitive_type is_bool_primitive_type
classify_node = refl

classify_dynamic :
    classify_type {E = ⊥} rust regex (dynamic (array (simple "bool"))) ≡ ok dynamic_array
unfolding classify_type is_primitive_type is_unsigned_primitive_type is_signed_primitive_type
    is_void_primitive_type is_float_primitive_type is_bool_primitive_type classify_other
    is_dynamic_array is_static_array
classify_dynamic = refl

-- A tuple struct, a variant with two fields and a signature that is a number are refused.
generate_tuple : generate {E = ⊥} rust regex crate "uavcan" other ≡ panic
unfolding generate
generate_tuple = refl

generate_variant :
    generate {E = ⊥} rust regex crate "uavcan" (enum ((simple "f32" ∷ (simple "f32" ∷ [])) ∷ []))
    ≡ panic
unfolding generate enum_flattened
generate_variant = refl

abbrev bad_signature : List (Option NameValue)
bad_signature = some (record { ident = "DSDLSignature"; lit_str = none }) ∷ []

read_bad_signature : (a : Attributes) → read_attributes {E = ⊥} bad_signature a ≡ panic
unfolding read_attributes read_attribute
read_bad_signature a = refl

abbrev signed : Input
signed = record {
  attrs =
      none
      ∷ (some (record { ident = "DSDLSignature"; lit_str = some "0x1" })
          ∷ (some (record { ident = "UavcanCrateName"; lit_str = some "fork" }) ∷ []));
  body = named (simple "bool" ∷ (dynamic (array (simple "bool")) ∷ (array (simple "bool") ∷ [])));
}

generate-serialize_panic_example :
    (t : Serializable Unit Unit) × (generate {E = ⊥} rust regex crate "uavcan"
        (named (simple "Node32" ∷ []))
      ≡ ok (struct_code (t ∷ [])))
    × ((self : t.Value) × (serialize {E = ⊥} 2 (borrow t self ∷ []) true (cursor_at 0 tt)
          ≡ some panic))
generate-serialize_panic_example =
    generate-serialize_panic rust regex crate ⊥ patterns "uavcan" (simple "Node32") ("Node32", none)
      (record { segments = ("Node32", none) ∷ []; path_eq = refl; last_eq = refl }) refl tt true tt
      tt (omega arith) (0, refl)
