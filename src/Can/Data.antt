-- ===== src/Can/Data.antt =====
-- Classic CAN, cyphal/src/transport/can/legacy.rs: the data, and the functions on checksums.
-- A payload of type `ArrayVec<[u8; 8]>` is the list of its bytes.
use cyphal_rs.Base.{
  ℕ, ◌+◌, ◌-◌, ◌/◌, ◌%◌, Bool, true, false, not, ◌&&◌, Option, none, some, List, [], ◌∷◌, ltb, leb,
  ◌==◌, bool_eq, if◌then◌else◌, length, get_elem?, set, take, Result, ok, err, panic, ◌>>=◌, unwrap,
}
use cyphal_rs.CrcAny.{CrcAny}
use cyphal_rs.Crates.{Crates}
use cyphal_rs.Types.{TransferFrame, RxError}

pub record FrameMetadata : Type 0 where
  pub toggle_bit : Bool
  pub crc_val : Option ℕ

pub record TxMetadata : Type 0 where
  pub first_frame : Bool
  pub toggle_bit : Bool

-- `Default for TxMetadata`.
abbrev pub tx_default : TxMetadata
tx_default = record { first_frame = true; toggle_bit = true }

abbrev pub mtu_size : ℕ
mtu_size = 8

abbrev pub crc_size : ℕ
crc_size = 2

abbrev pub is_empty : List ℕ → Bool
is_empty [] = true
is_empty (x ∷ xs) = false

-- `slice.last()`.
abbrev pub last : List ℕ → Option ℕ
last xs = get_elem? xs (length xs - 1)

-- `a - b` on `usize`, which panics below zero.
abbrev pub sub_usize : {E : Type 0} → ℕ → ℕ → Result E ℕ
sub_usize a b = if ltb a b then panic else ok (a - b)

-- `slice[i] = v`, which panics out of range.
abbrev store {ℓ} : {E : Type ℓ} → List ℕ → ℕ → ℕ → Result E (List ℕ)
store xs i v = if ltb i (length xs) then ok (set xs i v) else panic

module _ ⦃k : CrcAny⦄ where
  pub record RxMetadata : Type 0 where
    pub crc : k.CrcU16
    pub toggle_bit : Bool

  -- `Default for RxMetadata`.
  abbrev pub rx_default : RxMetadata
  rx_default = record { crc = k.crc16ccitt_false; toggle_bit = false }

  unfoldable pub get_crc_padded_size : ℕ → ℕ
  get_crc_padded_size requested_size = requested_size + 2

  -- What the checksum of a frame leaves: the first error leaves all as it was, and a wrong
  -- checksum is found when the metadata is updated already.
  unfoldable pub update_rx_metadata :
      {I : Type 0}
      → RxMetadata
      → FrameMetadata
      → TransferFrame I
      → RxMetadata × Result RxError (Unit {0})
  update_rx_metadata rx fm frame =
      if bool_eq fm.toggle_bit rx.toggle_bit
      then (rx, err RxError.invalid_frame_ordering)
      else (let rx = record rx { toggle_bit = fm.toggle_bit } in
          let rx =
            if not (frame.last_frame && frame.first_frame)
            then record rx { crc = k.digest rx.crc frame.payload }
            else rx in
          elim fm.crc_val [
            | none ↦ (rx, ok tt)
            | some crc_val ↦
                if not (crc_val == k.get_crc rx.crc)
                then (rx, err RxError.crc_error)
                else (rx, ok tt)
          ])

  -- The high byte of the checksum goes first.
  unfoldable pub process_tx_crc : {E : Type 0} → List ℕ → ℕ → Result E (List ℕ × ℕ)
  process_tx_crc buffer data_size =
      if leb data_size 7
      then ok (buffer, data_size)
      else if not (leb data_size (length buffer))
      then panic
      else (let crc = k.get_crc (k.digest k.crc16ccitt_false (take data_size buffer)) in
          do
            buffer ← store buffer data_size (crc / 256 % 256)
            buffer ← store buffer (data_size + 1) (crc % 256)
            ok (buffer, data_size + 2))

module _ ⦃c : Crates⦄ where
  -- `CanFrame`.
  pub record CanFrame (I : Type 0) : Type 0 where
    pub timestamp : I
    pub id : c.ExtendedId
    pub payload : List ℕ

  -- `CanFrame::new`, which panics on an ID of more than 29 bits; `from_iter` stops at the capacity.
  unfoldable pub new_frame : {E I : Type 0} → I → ℕ → List ℕ → Result E (CanFrame I)
  new_frame timestamp id bytes = do
    id ← unwrap (c.extended_id id)
    ok (record { timestamp = timestamp; id = id; payload = take 8 bytes })
