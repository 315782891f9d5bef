-- ===== src/Derive/Faithful.antt =====
-- When `impl_uavcan_struct` of uavcan-derive/src/lib.rs takes the fields for what they are.
use Prim.Native.String.{String}
use text.Mathlib.Text.{◌==◌}
use cyphal_rs.Base.{
  ◌≡◌, Bool, true, false, Option, none, some, List, [], ◌∷◌, if◌then◌else◌, Result, ◌>>=◌,
}
use cyphal_rs.Derive.Syn.{NameValue, Syn, Regex}
use cyphal_rs.Derive.Classify.{classify_type}
use cyphal_rs.Derive.Patterns.{Patterns, primitive, Ends}
use cyphal_rs.Derive.Serializable.{Serializable}
use cyphal_rs.Derive.Expand.{dynamic_field, Attributes, Impls, field_of_kind}

-- The names that the macro reads.
abbrev pub is_read : String → Bool
is_read name =
    if name == "DSDLSignature"
    then true
    else if name == "DataTypeSignature"
    then true
    else name == "UavcanCrateName"

-- An attribute that the macro reads has a string.
abbrev pub HasLiteral : Option NameValue → Type 0
HasLiteral none = Unit
HasLiteral (some attr) = is_read attr.ident ≡ true → (value : String) × (attr.lit_str ≡ some value)

-- The literal of the last attribute of this name, or the default.
abbrev pub literal_or : Option String → String → String
literal_or none default = default
literal_or (some value) default = value

unfoldable pub latest : String → List (Option NameValue) → String → String
latest name [] default = default
latest name (none ∷ attrs) default = latest name attrs default
latest name (some attr ∷ attrs) default =
    latest name attrs (if attr.ident == name then literal_or attr.lit_str default else default)

unfoldable pub latest_attributes : List (Option NameValue) → Attributes → Attributes
latest_attributes attrs default = record {
  dsdl_signature = latest "DSDLSignature" attrs default.dsdl_signature;
  data_type_signature = latest "DataTypeSignature" attrs default.data_type_signature;
  crate_name = latest "UavcanCrateName" attrs default.crate_name;
}

module _ {S D : Type 0} (syn : Syn) (regex : Regex) (p : Patterns regex) (impls : Impls S D syn.Ty)
    (crate_name : String) where
  -- How a field is treated, by the form of its type: what a pattern matches has one flattened field;
  -- a `Dynamic` has the constants of `Dynamic` of its first parameter, or of none without angle
  -- brackets; any other path and what is no path is treated by the implementation that it has.
  pub data Treated (ty : syn.Ty) : Serializable S D → Type 1 where
    by_pattern :
        (segment : syn.Segment)
        → Ends syn ty segment
        → primitive p (syn.ident segment) ≡ true
        → Treated ty (record (impls.of_type crate_name ty) { flattened_fields_number = 1 })
    dynamic_of :
        (segment : syn.Segment) (item : syn.Ty) (items : List syn.Ty)
        → Ends syn ty segment
        → syn.ident segment ≡ "Dynamic"
        → primitive p "Dynamic" ≡ false
        → syn.angle_bracketed segment ≡ some (item ∷ items)
        → Treated ty
            (dynamic_field (impls.of_type crate_name ty) (impls.of_dynamic crate_name (some item)))
    dynamic_bare :
        (segment : syn.Segment)
        → Ends syn ty segment
        → syn.ident segment ≡ "Dynamic"
        → primitive p "Dynamic" ≡ false
        → syn.angle_bracketed segment ≡ none
        → Treated ty
            (dynamic_field (impls.of_type crate_name ty) (impls.of_dynamic crate_name none))
    other_path :
        (segment : syn.Segment)
        → Ends syn ty segment
        → primitive p (syn.ident segment) ≡ false
        → (syn.ident segment == "Dynamic") ≡ false
        → Treated ty (impls.of_type crate_name ty)
    no_path : syn.path ty ≡ none → Treated ty (impls.of_type crate_name ty)

  pub data EachTreated : List syn.Ty → List (Serializable S D) → Type 1 where
    no_field : EachTreated [] []
    more :
        {ty : syn.Ty} {fields : List syn.Ty} {field : Serializable S D}
        {rest : List (Serializable S D)}
        → Treated ty field
        → EachTreated fields rest
        → EachTreated (ty ∷ fields) (field ∷ rest)

  -- What the macro makes of a field.
  abbrev made : (E : Type 0) → syn.Ty → Result E (Serializable S D)
  made E ty = do kind ← classify_type syn regex ty; field_of_kind syn regex impls crate_name ty kind
