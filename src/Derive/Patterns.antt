-- ===== src/Derive/Patterns.antt =====
-- The patterns of uavcan-derive/src/lib.rs on a type by the last segment of its path.
use Prim.Native.String.{String}
use cyphal_rs.Base.{◌≡◌, refl, Bool, true, false, ◌||◌, none, some, List, ok}
use cyphal_rs.Derive.Syn.{Syn, Regex}
use cyphal_rs.Derive.Classify.{
  or_else, last, path_matches, is_bool_primitive_type, is_unsigned_primitive_type,
  is_signed_primitive_type, is_void_primitive_type, is_float_primitive_type, is_primitive_type,
}

-- The five patterns are valid; each field is what its pattern matches.
pub record Patterns (regex : Regex) : Type 0 where
  pub unsigned : String → Bool
  pub signed : String → Bool
  pub void : String → Bool
  pub float : String → Bool
  pub bool : String → Bool
  pub unsigned_eq : regex.new "u([2-9]|[1-5][0-9]|6[0-4])" ≡ some unsigned
  pub signed_eq : regex.new "i([2-9]|[1-5][0-9]|6[0-4])" ≡ some signed
  pub void_eq : regex.new "void([1-9]|[1-5][0-9]|6[0-4])" ≡ some void
  pub float_eq : regex.new "f(16)|(32)|64" ≡ some float
  pub bool_eq : regex.new "bool" ≡ some bool

-- One of them matches.
abbrev pub primitive : {regex : Regex} → Patterns regex → String → Bool
primitive p name =
    p.unsigned name || (p.signed name || (p.void name || (p.float name || p.bool name)))

or_else-five :
    (E : Type 0) (a b c d e : Bool)
    → or_else {E = E} (ok a) (or_else (ok b) (or_else (ok c) (or_else (ok d) (ok e))))
      ≡ ok (a || (b || (c || (d || e))))
or_else-five E true b c d e = refl
or_else-five E false true c d e = refl
or_else-five E false false true d e = refl
or_else-five E false false false true e = refl
or_else-five E false false false false e = refl

module _ (syn : Syn) where
  -- The last segment of the path of a type.
  pub record Ends (ty : syn.Ty) (segment : syn.Segment) : Type 0 where
    pub segments : List syn.Segment
    pub path_eq : syn.path ty ≡ some segments
    pub last_eq : last segments ≡ some segment

  module _ (regex : Regex) (p : Patterns regex) (E : Type 0) (ty : syn.Ty) (segment : syn.Segment)
      (ends : Ends ty segment) where
    path_matches-Ends :
        (pattern : String) (re : String → Bool)
        → regex.new pattern ≡ some re
        → path_matches {E = E} syn regex pattern (syn.path ty) ≡ ok (re (syn.ident segment))
    path_matches-Ends pattern re valid = rw ends.path_eq (rw valid (rw ends.last_eq refl))

    pub is_primitive_type-Ends :
        is_primitive_type {E = E} syn regex ty ≡ ok (primitive p (syn.ident segment))
    unfolding is_primitive_type is_bool_primitive_type is_unsigned_primitive_type
        is_signed_primitive_type is_void_primitive_type is_float_primitive_type
    is_primitive_type-Ends =
        let e₁ = path_matches-Ends _ p.unsigned p.unsigned_eq in
        let e₂ = path_matches-Ends _ p.signed p.signed_eq in
        let e₃ = path_matches-Ends _ p.void p.void_eq in
        let e₄ = path_matches-Ends _ p.float p.float_eq in
        let e₅ = path_matches-Ends _ p.bool p.bool_eq in
        let name = syn.ident segment in
        rw (e₁, e₂, e₃, e₄, e₅)
          (or_else-five E (p.unsigned name) (p.signed name) (p.void name) (p.float name)
            (p.bool name))

  -- What is no path matches no pattern.
  pub is_primitive_type_no_path :
      (regex : Regex) (E : Type 0) (ty : syn.Ty)
      → syn.path ty ≡ none
      → is_primitive_type {E = E} syn regex ty ≡ ok false
  unfolding is_primitive_type is_bool_primitive_type is_unsigned_primitive_type
      is_signed_primitive_type is_void_primitive_type is_float_primitive_type
  is_primitive_type_no_path regex E ty none_eq = rw none_eq refl
