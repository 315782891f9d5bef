-- ===== src/Node/Entry.antt =====
-- What `Node::try_receive_frame` (cyphal/src/node.rs) does to the table of transfers of a
-- `MapTransferManager`: a step at one entry.
use cyphal_rs.Base.{
  ℕ, ◌≡◌, refl, ap, ◌∙◌, Bool, true, false, not, Option, none, ◌==◌, ==-refl, if◌then◌else◌, Result,
  ok, err, panic,
}
use cyphal_rs.Clock.{Clock}
use cyphal_rs.HashMap.{get}
use cyphal_rs.Manager.{TransferManager, UpdateTransferError, CreateTransferError}
use cyphal_rs.MapManager.Receive.{append_frame, new_transfer}
use cyphal_rs.MapManager.Refinement.{RxStep, append_frame_lem, new_transfer_lem}
use cyphal_rs.MapManager.State.{Hasher, MapTransferManager, hash_metadata}
use cyphal_rs.MapManager.Table.{Rx, append_step, new_step}
use cyphal_rs.MapManager.Timeout.{map_manager}
use cyphal_rs.Node.Receive.{of_new, receive_new, receive_frame}
use cyphal_rs.Transport.{Transport}
use cyphal_rs.Types.{TransferFrame, RxError}

module _ ⦃clock : Clock⦄ ⦃hasher : Hasher⦄ (T : Transport clock.Instant) where
  -- A step at the entry under `token`, which answers and leaves the entries under other tokens.
  abbrev pub Acts :
      {A : Type 0}
      → MapTransferManager T
      → MapTransferManager T × A
      → ℕ
      → (Rx T → Rx T × A)
      → Type 0
  Acts m out token step =
      ((get token out.0.rx_transfers, out.1) ≡ step (get token m.rx_transfers))
      × ((k : ℕ) → (token == k) ≡ false → get k out.0.rx_transfers ≡ get k m.rx_transfers)

  RxStep-Acts :
      {A : Type 0} (m : MapTransferManager T) (out : MapTransferManager T × A) (token : ℕ)
      (step : Rx T → Rx T × A)
      → RxStep T m out token step
      → Acts m out token step
  RxStep-Acts {A} m out token step (table, kept) = (
    ap (λ (t : (ℕ → Rx T) × A). (t.0 token, t.1)) table ∙ rw (==-refl token) refl,
    λ k other. ap (λ (t : (ℕ → Rx T) × A). t.0 k) table ∙ rw other refl,
  )

  -- A frame for no transfer that is there.
  abbrev pub start_step :
      ℕ → TransferFrame clock.Instant → T.FrameMetadata → Rx T → Rx T × Result RxError (Option ℕ)
  start_step token frame metadata entry =
      if not frame.first_frame
      then (entry, err RxError.new_session_no_start)
      else (let (entry', result) = new_step T token frame metadata entry in (entry', of_new result))

  -- What becomes of the answer of `append_frame`.
  abbrev after_append :
      ℕ
      → TransferFrame clock.Instant
      → T.FrameMetadata
      → Rx T
      → Result UpdateTransferError (Option ℕ)
      → Rx T × Result RxError (Option ℕ)
  after_append token frame metadata entry (ok found) = (entry, ok found)
  after_append token frame metadata entry (err UpdateTransferError.no_space) = (entry, ok none)
  after_append token frame metadata entry (err UpdateTransferError.does_not_exist) =
      start_step token frame metadata entry
  after_append token frame metadata entry (err (UpdateTransferError.rx_error e)) = (entry, err e)
  after_append token frame metadata entry (err UpdateTransferError.timed_out) =
      (entry, err RxError.timeout)
  after_append token frame metadata entry panic = (entry, panic)

  abbrev pub receive_step :
      ℕ → TransferFrame clock.Instant → T.FrameMetadata → Rx T → Rx T × Result RxError (Option ℕ)
  receive_step token frame metadata entry =
      let (entry', result) = append_step T token frame metadata entry in
      after_append token frame metadata entry' result

  abbrev manager : TransferManager clock T
  manager = map_manager clock T

  -- A frame that is the first of its transfer, or is not.
  new_arm-Acts :
      (first : Bool) (m : MapTransferManager T) (token : ℕ)
      (out : MapTransferManager T × Result CreateTransferError (Option ℕ))
      (step : Rx T → Rx T × Result CreateTransferError (Option ℕ))
      → Acts m out token step
      → Acts m
          (if not first then (m, err RxError.new_session_no_start) else (out.0, of_new out.1))
          token
          (λ entry.
            if not first
            then (entry, err RxError.new_session_no_start)
            else ((step entry).0, of_new (step entry).1))
  new_arm-Acts true m token out step (own, others) =
      (ap (λ (p : Rx T × Result CreateTransferError (Option ℕ)). (p.0, of_new p.1)) own, others)
  new_arm-Acts false m token out step acts = (refl, λ k other. refl)

  receive_new-Acts :
      (m : MapTransferManager T) (frame : TransferFrame clock.Instant) (metadata : T.FrameMetadata)
      → (let token = hash_metadata frame.metadata in
          Acts m (receive_new manager m frame metadata) token (start_step token frame metadata))
  unfolding receive_new
  receive_new-Acts m frame metadata =
      let token = hash_metadata frame.metadata in
      new_arm-Acts frame.first_frame m token (new_transfer T m frame metadata)
        (new_step T token frame metadata)
        (RxStep-Acts m (new_transfer T m frame metadata) token (new_step T token frame metadata)
          (new_transfer_lem T m frame metadata))

  -- The manager and the answer behind what `append_frame` returned.
  abbrev answer :
      TransferFrame clock.Instant
      → T.FrameMetadata
      → MapTransferManager T × Result UpdateTransferError (Option ℕ)
      → MapTransferManager T × Result RxError (Option ℕ)
  answer frame metadata (m, ok found) = (m, ok found)
  answer frame metadata (m, err UpdateTransferError.no_space) = (m, ok none)
  answer frame metadata (m, err UpdateTransferError.does_not_exist) =
      receive_new manager m frame metadata
  answer frame metadata (m, err (UpdateTransferError.rx_error e)) = (m, err e)
  answer frame metadata (m, err UpdateTransferError.timed_out) = (m, err RxError.timeout)
  answer frame metadata (m, panic) = (m, panic)

  receive_frame-answer :
      (m : MapTransferManager T) (frame : TransferFrame clock.Instant) (metadata : T.FrameMetadata)
      (result : Result UpdateTransferError (Option ℕ))
      → (append_frame T m frame metadata).1 ≡ result
      → receive_frame manager m frame metadata
        ≡ answer frame metadata (append_frame T m frame metadata)
  unfolding receive_frame
  receive_frame-answer m frame metadata (ok found) e = rw (receive_frame, e) refl
  receive_frame-answer m frame metadata panic e = rw (receive_frame, e) refl
  receive_frame-answer m frame metadata (err UpdateTransferError.no_space) e =
      rw (receive_frame, e) refl
  receive_frame-answer m frame metadata (err UpdateTransferError.does_not_exist) e =
      rw (receive_frame, e) refl
  receive_frame-answer m frame metadata (err (UpdateTransferError.rx_error x)) e =
      rw (receive_frame, e) refl
  receive_frame-answer m frame metadata (err UpdateTransferError.timed_out) e =
      rw (receive_frame, e) refl

  answer-Acts :
      (frame : TransferFrame clock.Instant) (metadata : T.FrameMetadata)
      (out : MapTransferManager T × Result UpdateTransferError (Option ℕ))
      → Acts out.0
          (answer frame metadata out)
          (hash_metadata frame.metadata)
          (λ entry. after_append (hash_metadata frame.metadata) frame metadata entry out.1)
  answer-Acts frame metadata (m, ok found) = (refl, λ k other. refl)
  answer-Acts frame metadata (m, panic) = (refl, λ k other. refl)
  answer-Acts frame metadata (m, err UpdateTransferError.no_space) = (refl, λ k other. refl)
  answer-Acts frame metadata (m, err (UpdateTransferError.rx_error x)) = (refl, λ k other. refl)
  answer-Acts frame metadata (m, err UpdateTransferError.timed_out) = (refl, λ k other. refl)
  answer-Acts frame metadata (m, err UpdateTransferError.does_not_exist) =
      receive_new-Acts m frame metadata

  -- A frame acts on the entry under the hash of its metadata, by what that entry holds.
  pub receive_frame-Acts :
      (m : MapTransferManager T) (frame : TransferFrame clock.Instant) (metadata : T.FrameMetadata)
      → (let token = hash_metadata frame.metadata in
          Acts m (receive_frame manager m frame metadata) token (receive_step token frame metadata))
  receive_frame-Acts m frame metadata =
      let token = hash_metadata frame.metadata in
      let out = append_frame T m frame metadata in
      let (own, others) =
        RxStep-Acts m out token (append_step T token frame metadata)
          (append_frame_lem T m frame metadata) in
      let (entry, rest) = answer-Acts frame metadata out in
      rw (receive_frame-answer m frame metadata out.1 refl) (
        entry
            ∙ ap
                (λ (p : Rx T × Result UpdateTransferError (Option ℕ)).
                  after_append token frame metadata p.0 p.1)
                own,
        λ k other. rest k other ∙ others k other,
      )
