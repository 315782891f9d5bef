-- ===== src/Derive/Classify.antt =====
-- The classification of a field by its type, uavcan-derive/src/lib.rs.
use Prim.Native.String.{String}
use text.Mathlib.Text.{◌==◌}
use cyphal_rs.Base.{
  Bool, true, false, Option, none, some, List, [], ◌∷◌, if◌then◌else◌, Result, ok, panic, unwrap,
  ◌>>=◌,
}
use cyphal_rs.Derive.Syn.{Syn, Regex}

pub data UavcanType : Type 0 where
  primitive_type dynamic_array static_array struct : UavcanType

abbrev pub last {ℓ} : {A : Type ℓ} → List A → Option A
last [] = none
last (x ∷ []) = some x
last (x ∷ y ∷ xs) = last (y ∷ xs)

module _ {E : Type 0} where
  -- `||`, when both sides may panic.
  abbrev pub or_else : Result E Bool → Result E Bool → Result E Bool
  or_else first second = do holds ← first; if holds then ok true else second

module _ {E : Type 0} (syn : Syn) (regex : Regex) where
  abbrev pub last_segment : List syn.Segment → Result E syn.Segment
  last_segment segments = unwrap (last segments)

  -- The pattern on the last segment of a path; what is no path has no match.
  abbrev pub path_matches : String → Option (List syn.Segment) → Result E Bool
  path_matches pattern none = ok false
  path_matches pattern (some segments) = do
    re ← unwrap (regex.new pattern)
    segment ← last_segment segments
    ok (re (syn.ident segment))

  unfoldable pub is_bool_primitive_type : syn.Ty → Result E Bool
  is_bool_primitive_type ty = path_matches "bool" (syn.path ty)

  unfoldable pub is_unsigned_primitive_type : syn.Ty → Result E Bool
  is_unsigned_primitive_type ty = path_matches "u([2-9]|[1-5][0-9]|6[0-4])" (syn.path ty)

  unfoldable pub is_signed_primitive_type : syn.Ty → Result E Bool
  is_signed_primitive_type ty = path_matches "i([2-9]|[1-5][0-9]|6[0-4])" (syn.path ty)

  unfoldable pub is_float_primitive_type : syn.Ty → Result E Bool
  is_float_primitive_type ty = path_matches "f(16)|(32)|64" (syn.path ty)

  unfoldable pub is_void_primitive_type : syn.Ty → Result E Bool
  is_void_primitive_type ty = path_matches "void([1-9]|[1-5][0-9]|6[0-4])" (syn.path ty)

  unfoldable pub is_primitive_type : syn.Ty → Result E Bool
  is_primitive_type ty = or_else (is_unsigned_primitive_type ty) (
      or_else (is_signed_primitive_type ty) (
        or_else (is_void_primitive_type ty)
          (or_else (is_float_primitive_type ty) (is_bool_primitive_type ty))))

  unfoldable pub is_static_array : syn.Ty → Result E Bool
  is_static_array ty = ok (syn.is_array ty)

  abbrev pub path_is_dynamic : Option (List syn.Segment) → Result E Bool
  path_is_dynamic none = ok false
  path_is_dynamic (some segments) = do
    segment ← last_segment segments
    ok (syn.ident segment == "Dynamic")

  unfoldable pub is_dynamic_array : syn.Ty → Result E Bool
  is_dynamic_array ty = path_is_dynamic (syn.path ty)

  -- The tests behind that for a primitive type.
  unfoldable pub classify_other : syn.Ty → Result E UavcanType
  classify_other ty = do
    dynamic ← is_dynamic_array ty
    static ← is_static_array ty
    ok (if dynamic then dynamic_array else if static then static_array else struct)

  unfoldable pub classify_type : syn.Ty → Result E UavcanType
  classify_type ty = do
    primitive ← is_primitive_type ty
    if primitive then ok primitive_type else classify_other ty

  -- `types[0]`, behind `AngleBracketed`.
  abbrev pub first_type : Option (List syn.Ty) → Result E (Option syn.Ty)
  first_type none = ok none
  first_type (some []) = panic
  first_type (some (ty ∷ types)) = ok (some ty)

  abbrev pub array_from_path : Option (List syn.Segment) → Result E (Option syn.Ty)
  array_from_path none = ok none
  array_from_path (some segments) = do
    segment ← last_segment segments
    if syn.ident segment == "Dynamic" then first_type (syn.angle_bracketed segment) else ok none

  unfoldable pub array_from_dynamic : syn.Ty → Result E (Option syn.Ty)
  array_from_dynamic ty = array_from_path (syn.path ty)
