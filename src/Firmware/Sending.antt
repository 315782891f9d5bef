-- ===== src/Firmware/Sending.antt =====
-- What `publish` of examples/embedded/src/main.rs puts on the bus.
use mathlib.Core.List.{append_assoc, append-nil}
use cyphal_rs.Base.{
  ℕ, zero, suc, ◌≤◌, ◌<◌, ◌≡◌, refl, sym, ◌∙◌, ◌⊎◌, inl, inr, some, List, [], ◌∷◌, ◌++◌, All,
  length, Result, ok, err, arith,
}
use cyphal_rs.Firmware.Api.{Hal, NbError, would_block, TxFrameHeader}
use cyphal_rs.Uavcan.{Uavcan, Yields}
use cyphal_rs.Firmware.Publish.{block, header, publish_frame, publish_loop, publish}
use cyphal_rs.Packing.{insert_u8_array_in_u32_array}

-- A device that sends: it takes what the closure makes of its buffer, or would block, at most
-- `bound` times in a row.
pub record Device (hal : Hal) : Type 0 where
  pub sent : hal.FdCan → List (TxFrameHeader hal.ExtendedId × List ℕ)
  pub buffer : List ℕ
  pub busy : hal.FdCan → ℕ
  pub bound : ℕ
  pub busy-le : (can : hal.FdCan) → busy can ≤ bound
  pub tries :
      (can : hal.FdCan) (head : TxFrameHeader hal.ExtendedId)
      (write : List ℕ → Result NbError (List ℕ)) (words : List ℕ)
      → write buffer ≡ ok words
      → (let (can', result) = hal.transmit can head write in
          ((result ≡ err would_block) × (busy can' < busy can) × (sent can' ≡ sent can))
          ⊎ ((result ≡ ok tt) × (sent can' ≡ sent can ++ ((head, words) ∷ []))))

module _ ⦃hal : Hal⦄ (device : Device hal) where
  block-sent :
      (E : Type 0) (fuel : ℕ) (can : hal.FdCan) (head : TxFrameHeader hal.ExtendedId)
      (write : List ℕ → Result NbError (List ℕ)) (words : List ℕ)
      → write device.buffer ≡ ok words
      → device.busy can < fuel
      → (can' : hal.FdCan) × (block {E = E} fuel can head write ≡ some (ok can'))
        × (device.sent can' ≡ device.sent can ++ ((head, words) ∷ []))
  unfolding block
  block-sent E zero can head write words writes enough = absurd (omega arith)
  block-sent E (suc fuel) can head write words writes enough =
      let next = (hal.transmit can head write).0 in
      elim (device.tries can head write words writes) [
        | inl (blocked, less, same) ↦
            let (can', ends, sent) = block-sent E fuel next head write words writes (omega arith) in
            (can', rw (block, blocked) ends, rw same at sent)
        | inr (done, sent) ↦ (next, rw (block, done) refl, sent)
      ]

  module _ ⦃u : Uavcan⦄ where
    -- A frame with an extended ID and with bytes that fit the buffer.
    pub record Sendable (frame : u.Frame) : Type 0 where
      pub id : hal.ExtendedId
      pub named : hal.extended_id (u.as_raw frame) ≡ some id
      pub words : List ℕ
      pub written :
          insert_u8_array_in_u32_array {E = NbError} (u.payload frame) device.buffer ≡ ok words

    abbrev pub on_bus :
        (frames : List u.Frame) → All Sendable frames → List (TxFrameHeader hal.ExtendedId × List ℕ)
    on_bus [] all = []
    on_bus (frame ∷ frames) (sendable, all) =
        (header frame sendable.id, sendable.words) ∷ on_bus frames all

    publish_loop-sent :
        (E : Type 0) (fuel : ℕ) (iter : u.FrameIter) (can : hal.FdCan) (frames : List u.Frame)
        (all : All Sendable frames)
        → Yields iter frames
        → length frames < fuel
        → (can' : hal.FdCan) × (publish_loop {E = E} fuel (suc device.bound) iter can
            ≡ some (ok can'))
          × (device.sent can' ≡ device.sent can ++ on_bus frames all)
    unfolding publish_loop publish_frame
    publish_loop-sent E zero iter can frames all yields enough = absurd (omega arith)
    publish_loop-sent E (suc fuel) iter can [] all yields enough =
        (can, rw (publish_loop, yields) refl, sym (append-nil (device.sent can)))
    publish_loop-sent E (suc fuel) iter can (frame ∷ frames) (sendable, all) (first, yields)
          enough =
        let write = insert_u8_array_in_u32_array {E = NbError} (u.payload frame) in
        let least = device.busy-le can in
        let (can', ends, sent) =
          block-sent E (suc device.bound) can (header frame sendable.id) write sendable.words
            sendable.written (omega arith) in
        let one : publish_frame {E = E} (suc device.bound) can frame ≡ some (ok can') =
          rw (publish_frame, sendable.named) ends in
        let (can'', ends', sent') =
          publish_loop-sent E fuel (u.next iter).0 can' frames all yields (omega arith) in
        (
          can'',
          rw (publish_loop, first, one) ends',
          sent' ∙ rw sent (append_assoc (device.sent can) _ (on_bus frames all)),
        )

    -- On a device that takes what it is given after blocking a bounded number of times, and for a
    -- transfer of which the node makes frames with extended IDs and with bytes that fit the buffer
    -- of the device: `publish` returns, and has put every frame on the bus once, in the order of the
    -- iterator, with its ID, its length and its bytes in words. A turn for each frame and one more,
    -- and a call for each time that the device may block and one more, are enough.
    pub publish-sent :
        (E : Type 0) (node node' : u.Node) (transfer : u.Transfer) (iter : u.FrameIter)
        (can : hal.FdCan) (frames : List u.Frame) (all : All Sendable frames)
        → u.transmit node transfer ≡ some (node', iter)
        → Yields iter frames
        → (can' : hal.FdCan) × (publish {E = E}
              (suc (length frames))
              (suc device.bound)
              node
              transfer
              can
            ≡ some (ok (node', can')))
          × (device.sent can' ≡ device.sent can ++ on_bus frames all)
    unfolding publish
    publish-sent E node node' transfer iter can frames all starts yields =
        let (can', ends, sent) =
          publish_loop-sent E (suc (length frames)) iter can frames all yields (omega arith) in
        (can', rw (publish, starts, ends) refl, sent)
