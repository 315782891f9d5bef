-- ===== src/Uavcan.antt =====
-- What the examples use of the crate `uavcan`, as it was when they were written. It is a parameter.
use cyphal_rs.Base.{ℕ, ◌≡◌, Option, none, some, List, [], ◌∷◌}

-- A node that makes of a transfer a streaming iterator over frames.
pub record Uavcan : Type 1 where
  pub Node : Type 0
  pub Transfer : Type 0
  pub FrameIter : Type 0
  pub Frame : Type 0
  -- `none` stands for an error.
  pub transmit : Node → Transfer → Option (Node × FrameIter)
  pub next : FrameIter → FrameIter × Option Frame
  pub as_raw : Frame → ℕ
  pub payload : Frame → List ℕ

module _ ⦃u : Uavcan⦄ where
  -- The frames of the iterator.
  abbrev pub Yields : u.FrameIter → List u.Frame → Type 0
  Yields iter [] = (u.next iter).1 ≡ none
  Yields iter (frame ∷ frames) = ((u.next iter).1 ≡ some frame) × Yields (u.next iter).0 frames
