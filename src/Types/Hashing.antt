-- ===== src/Types/Hashing.antt =====
-- `Hash for TransferMetadata` of cyphal/src/transfer/mod.rs: the words that it feeds to a hasher.
use cyphal_rs.Base.{ℕ, Option, none, some, List, [], ◌∷◌, ◌++◌}
use cyphal_rs.Types.{TransferMetadata, priority_as_u8, kind_as_u8}

-- One call of the `Hasher` trait.
pub data HashWrite : Type 0 where
  write_u8 write_u16 : ℕ → HashWrite

-- `if let Some(id) = … { state.write_u16(id) }`
abbrev pub write_node_id : Option ℕ → List HashWrite
write_node_id none = []
write_node_id (some id) = write_u16 id ∷ []

module _ {I : Type 0} where
  -- The calls that `hash` makes, in order.
  unfoldable pub hash_writes : TransferMetadata I → List HashWrite
  hash_writes md =
      write_u8 (priority_as_u8 md.priority)
      ∷ (write_u8 (kind_as_u8 md.transfer_kind)
          ∷ (write_node_id md.source_node_id
              ++ (write_node_id md.destination_node_id
                  ++ (write_u16 md.port_id ∷ (write_u8 md.transfer_id ∷ [])))))
