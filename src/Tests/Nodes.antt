-- ===== src/Tests/Nodes.antt =====
-- Two nodes for the concrete runs: node 12 sends, node 42 receives.
use cyphal_rs.Base.{
  ℕ, ◌+◌, ◌-◌, ◌*◌, ◌%◌, ◌^◌, some, none, if◌then◌else◌, List, [], ◌∷◌, Result, ok, ltb,
}
use cyphal_rs.Clock.{Clock}
use cyphal_rs.Link.Sender.{manager, CanNode}
use cyphal_rs.MapManager.State.{Hasher, new}
use cyphal_rs.Can.Transmit.{can}
use cyphal_rs.Node
use cyphal_rs.Tests.Concrete.{crates, crc_any}
use cyphal_rs.Types.Hashing.{HashWrite, write_u8, write_u16}

-- Milliseconds from the start, and a panic in place of a time since a later one.
instance abbrev pub clock : Clock
clock = record {
  Instant = ℕ;
  Generic = ℕ;
  since = λ now before. if ltb now before then none else some (now - before);
  to_generic = λ ms. some ms;
  longer = λ a b. ltb b a;
}

unfoldable pub mix : List HashWrite → ℕ
mix [] = 7
mix (write_u8 n ∷ rest) = (mix rest * 31 + n) % 2 ^ 64
mix (write_u16 n ∷ rest) = (mix rest * 65599 + n) % 2 ^ 64

instance abbrev pub hasher : Hasher
hasher = record { finish = mix }

abbrev pub node_12 : CanNode
node_12 = Node.Data.new manager (some 12) (new (can ℕ))

abbrev pub node_42 : CanNode
node_42 = Node.Data.new manager (some 42) (new (can ℕ))

abbrev pub ten_bytes : List ℕ
ten_bytes = 1 ∷ 2 ∷ 3 ∷ 4 ∷ 5 ∷ 6 ∷ 7 ∷ 8 ∷ 9 ∷ 10 ∷ []

-- A callback that fills its buffer of ten bytes.
abbrev pub write_ten : List ℕ → List ℕ × Result ⊥ ℕ
write_ten buffer = (ten_bytes, ok 10)

abbrev pub times : ℕ → ℕ
times n = 100 - n
