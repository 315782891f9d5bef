-- ===== src/Fd/Steps.antt =====
-- The branches of `FdCanIter::advance`, cyphal/src/transport/can/fd.rs.
use cyphal_rs.Base.{
  ℕ, ◌-◌, ◌≤◌, ◌≡◌, refl, true, false, ◌&&◌, some, min, leb, ltb, ◌==◌, length, ok, panic, ◌>>=◌,
  arith,
}
use cyphal_rs.Crates.{Crates}
use cyphal_rs.Fd.Api.{FdApi}
use cyphal_rs.Fd.ArrayVec.{ArrayVec}
use cyphal_rs.Fd.Frame.{FdCanFrame, set_dlc}
use cyphal_rs.Fd.Iterator.{FdCanIter, current_frame, single, several, next_frame, advance}

module _ ⦃c : Crates⦄ ⦃v : ArrayVec⦄ ⦃api : FdApi⦄ where
  pub advance-next_frame :
      {E : Type 0} (self : FdCanIter) (left : ℕ)
      → self.payload_offset ≤ length (api.payload self.transfer)
      → left ≡ length (api.payload self.transfer) - self.payload_offset
      → ((left == 0) && (self.crc_left == 0)) ≡ false
      → advance {E = E} self ≡ next_frame self left
  unfolding advance
  advance-next_frame self left room e more =
      let inside : ltb (length (api.payload self.transfer)) self.payload_offset ≡ false =
        ground arith in
      rw (advance, inside, ← e, more) refl

  pub next_frame-single :
      {E : Type 0} (self self' : FdCanIter) (frame frame' : FdCanFrame) (n : ℕ)
      → (self.is_start && leb n 63) ≡ true
      → current_frame {E = E} self ≡ ok frame
      → single {E = E} self frame n ≡ ok (self', frame')
      → next_frame {E = E} self n ≡ (do
        padded ← set_dlc frame' n
        ok (record self' { is_start = false; can_frame = some padded }))
  unfolding next_frame
  next_frame-single self self' frame frame' n only got made =
      let least : min n 63 ≡ n = ground arith in rw (next_frame, got, only, made, least) refl

  pub next_frame-several :
      {E : Type 0} (self self' : FdCanIter) (frame frame' : FdCanFrame) (n len : ℕ)
      → (self.is_start && leb n 63) ≡ false
      → current_frame {E = E} self ≡ ok frame
      → several {E = E} self frame n ≡ ok (self', frame', len)
      → next_frame {E = E} self n ≡ (do
        padded ← set_dlc frame' len
        ok (record self' { is_start = false; can_frame = some padded }))
  unfolding next_frame
  next_frame-several self self' frame frame' n len more got made =
      rw (next_frame, got, more, made) refl

  pub next_frame-several_panic :
      {E : Type 0} (self : FdCanIter) (frame : FdCanFrame) (n : ℕ)
      → (self.is_start && leb n 63) ≡ false
      → current_frame {E = E} self ≡ ok frame
      → several {E = E} self frame n ≡ panic
      → next_frame {E = E} self n ≡ panic
  unfolding next_frame
  next_frame-several_panic self frame n more got made = rw (next_frame, got, more, made) refl
