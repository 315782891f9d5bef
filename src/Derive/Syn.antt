-- ===== src/Derive/Syn.antt =====
-- What uavcan-derive/src/lib.rs uses of the crates `syn` and `regex`, as parameters.
use Prim.Native.String.{String}
use cyphal_rs.Base.{Bool, Option, List}

-- The forms of a body that the code tells apart: an enum, by the types of the fields of each
-- variant; a struct with named fields, by their types; a unit struct; and what is left.
pub data Body (Ty : Type 0) : Type 0 where
  enum : List (List Ty) → Body Ty
  named : List Ty → Body Ty
  unit other : Body Ty

-- `MetaItem::NameValue`, by the text of the name and of the literal, if that is a string.
pub record NameValue : Type 0 where
  pub ident : String
  pub lit_str : Option String

-- `syn` 0.11: a path is the list of its segments, a segment has a text and, in angle brackets, types.
pub record Syn : Type 1 where
  pub Ty : Type 0
  pub Segment : Type 0
  pub path : Ty → Option (List Segment)
  pub is_array : Ty → Bool
  pub ident : Segment → String
  pub angle_bracketed : Segment → Option (List Ty)
  pub DeriveInput : Type 0
  pub attrs : DeriveInput → List (Option NameValue)
  pub body : DeriveInput → Body Ty

-- `Regex::new`, and `is_match` of what it makes.
pub record Regex : Type 0 where
  pub new : String → Option (String → Bool)
