-- ===== src/Node/Interleaving.antt =====
-- A user's loop over `Node::try_receive_frame` (cyphal/src/node.rs), with the frames of many
-- transfers in any order.
use cyphal_rs.Base.{
  ℕ, ◌≡◌, refl, sym, ap, ◌∙◌, Bool, true, false, Option, Bool-cases, Result-cases, inl, inr, ◌⊎◌,
  List, [], ◌∷◌, ◌==◌, ==_iff, if◌then◌else◌, Result, ok, err, panic,
}
use cyphal_rs.Clock.{Clock}
use cyphal_rs.HashMap.{get}
use cyphal_rs.Manager.{TransferManager}
use cyphal_rs.MapManager.State.{Hasher, hash_metadata}
use cyphal_rs.MapManager.Table.{Rx}
use cyphal_rs.MapManager.Timeout.{map_manager}
use cyphal_rs.Node.Data.{Node}
use cyphal_rs.Node.Entry.{receive_step, receive_frame-Acts}
use cyphal_rs.Node.Receive.{
  Addressed, for_us, not_for_us, broken, addressed, receive_read, try_receive_frame,
}
use cyphal_rs.Transport.{Transport}
use cyphal_rs.Types.{NodeId, TransferFrame, RxError}

pub Addressed-cases : (a : Addressed) → (a ≡ for_us) ⊎ ((a ≡ not_for_us) ⊎ (a ≡ broken))
Addressed-cases for_us = inl refl
Addressed-cases not_for_us = inr (inl refl)
Addressed-cases broken = inr (inr refl)

module _ ⦃clock : Clock⦄ ⦃hasher : Hasher⦄ (T : Transport clock.Instant) where
  abbrev pub manager : TransferManager clock T
  manager = map_manager clock T

  abbrev pub Answer : Type 0
  Answer = Result RxError (Option ℕ)

  abbrev pub entry : ℕ → Node manager → Rx T
  entry k node = get k node.transfer_manager.rx_transfers

  -- What is seen of a step at the entry under `k`.
  abbrev seen : ℕ → Node manager × Answer → Rx T × Answer
  seen k (node, answer) = (entry k node, answer)

  -- Whether a frame that is read is one of the transfer under token `k`, for a node with this ID.
  abbrev pub belongs_addressed : ℕ → ℕ → Addressed → Bool
  belongs_addressed k token for_us = token == k
  belongs_addressed k token not_for_us = false
  belongs_addressed k token broken = false

  abbrev pub belongs_read :
      ℕ → Option NodeId → Result RxError (TransferFrame clock.Instant × T.FrameMetadata) → Bool
  belongs_read k own (ok (read, metadata)) =
      belongs_addressed k (hash_metadata read.metadata) (addressed own read.metadata)
  belongs_read k own (err e) = false
  belongs_read k own panic = false

  abbrev pub belongs : ℕ → Option NodeId → T.Frame → Bool
  belongs k own frame = belongs_read k own (T.rx_process_frame frame)

  -- The loop: each frame is received, whatever the answer to the one before it was.
  unfoldable pub receive_all : Node manager → List T.Frame → Node manager
  receive_all node [] = node
  receive_all node (frame ∷ frames) = receive_all (try_receive_frame manager node frame).0 frames

  -- The frames of one transfer, and the answers to them in the loop over all.
  abbrev pub own_frames : ℕ → Option NodeId → List T.Frame → List T.Frame
  own_frames k own [] = []
  own_frames k own (frame ∷ frames) =
      if belongs k own frame then frame ∷ own_frames k own frames else own_frames k own frames

  unfoldable pub answers : ℕ → Node manager → List T.Frame → List Answer
  answers k node [] = []
  answers k node (frame ∷ frames) =
      let rest = answers k (try_receive_frame manager node frame).0 frames in
      if belongs k node.id frame then (try_receive_frame manager node frame).1 ∷ rest else rest

  -- A node, and what it does with a frame as it was read.
  read_id :
      (node : Node manager) (frame : TransferFrame clock.Instant) (metadata : T.FrameMetadata)
      → (receive_read manager node frame metadata).0.id ≡ node.id
  unfolding receive_read
  read_id node frame metadata = elim (Addressed-cases (addressed node.id frame.metadata)) [
    | inl e ↦ rw (receive_read, e) refl
    | inr (inl e) ↦ rw (receive_read, e) refl
    | inr (inr e) ↦ rw (receive_read, e) refl
  ]

  read_other :
      (k : ℕ) (node : Node manager) (frame : TransferFrame clock.Instant)
      (metadata : T.FrameMetadata)
      → belongs_addressed k (hash_metadata frame.metadata) (addressed node.id frame.metadata)
        ≡ false
      → entry k (receive_read manager node frame metadata).0 ≡ entry k node
  unfolding receive_read
  read_other k node frame metadata other =
      elim (Addressed-cases (addressed node.id frame.metadata)) [
        | inl e ↦
            let other' = rw e at other in
            rw (receive_read, e)
              ((receive_frame-Acts T node.transfer_manager frame metadata).1 k other')
        | inr (inl e) ↦ rw (receive_read, e) refl
        | inr (inr e) ↦ rw (receive_read, e) refl
      ]

  -- A frame of the transfer changes the entry and is answered by what the entry held.
  read_own :
      (k : ℕ) (node : Node manager) (frame : TransferFrame clock.Instant)
      (metadata : T.FrameMetadata)
      → belongs_addressed k (hash_metadata frame.metadata) (addressed node.id frame.metadata) ≡ true
      → seen k (receive_read manager node frame metadata)
        ≡ receive_step T k frame metadata (entry k node)
  unfolding receive_read
  read_own k node frame metadata own = elim (Addressed-cases (addressed node.id frame.metadata)) [
    | inl e ↦
        let same = (==_iff (hash_metadata frame.metadata) k).0 (rw e at own) in
        let acts = (receive_frame-Acts T node.transfer_manager frame metadata).0 in
        rw (receive_read, e) (rw same at acts)
    | inr (inl e) ↦ absurd (let own' = rw e at own in cc)
    | inr (inr e) ↦ absurd (let own' = rw e at own in cc)
  ]

  -- The same for a frame as it comes.
  frame_id :
      (node : Node manager) (frame : T.Frame)
      → (try_receive_frame manager node frame).0.id ≡ node.id
  unfolding try_receive_frame
  frame_id node frame = elim (Result-cases (T.rx_process_frame frame)) [
    | inl e ↦ rw (try_receive_frame, e) refl
    | inr (inl (x, e)) ↦ rw (try_receive_frame, e) refl
    | inr (inr ((read, metadata), e)) ↦ rw (try_receive_frame, e) (read_id node read metadata)
  ]

  frame_other :
      (k : ℕ) (node : Node manager) (frame : T.Frame)
      → belongs k node.id frame ≡ false
      → entry k (try_receive_frame manager node frame).0 ≡ entry k node
  unfolding try_receive_frame
  frame_other k node frame other = elim (Result-cases (T.rx_process_frame frame)) [
    | inl e ↦ rw (try_receive_frame, e) refl
    | inr (inl (x, e)) ↦ rw (try_receive_frame, e) refl
    | inr (inr ((read, metadata), e)) ↦
        rw (try_receive_frame, e) (read_other k node read metadata (rw e at other))
  ]

  -- Two nodes with one ID and one entry do the same with a frame of the transfer.
  frame_own :
      (k : ℕ) (node node' : Node manager) (frame : T.Frame)
      → node.id ≡ node'.id
      → entry k node ≡ entry k node'
      → belongs k node.id frame ≡ true
      → seen k (try_receive_frame manager node frame)
        ≡ seen k (try_receive_frame manager node' frame)
  unfolding try_receive_frame
  frame_own k node node' frame ids entries own = elim (Result-cases (T.rx_process_frame frame)) [
    | inl e ↦ absurd (let own' = rw e at own in cc)
    | inr (inl (x, e)) ↦ absurd (let own' = rw e at own in cc)
    | inr (inr ((read, metadata), e)) ↦
        let here = rw e at own in
        let there = rw ids at here in
        let first = read_own k node read metadata here in
        let second = read_own k node' read metadata there in
        rw (try_receive_frame, e) (first ∙ ap (receive_step T k read metadata) entries ∙ sym second)
  ]

  -- Over any transport, with the map manager: of a sequence of frames that are received one after
  -- the other, those that the node reads as frames for it of the transfer under a token, the hash
  -- of their metadata, are answered as if they came alone, and leave the entry under the token as
  -- if they came alone, at the same node or at one with the same ID and the same entry. Frames of
  -- other transfers, for other nodes and unreadable ones make no difference, in any order.
  pub receive_all-own_frames :
      (k : ℕ) (node node' : Node manager) (frames : List T.Frame)
      → node.id ≡ node'.id
      → entry k node ≡ entry k node'
      → (let own = own_frames k node.id frames in
          (entry k (receive_all node frames) ≡ entry k (receive_all node' own))
          × (answers k node frames ≡ answers k node' own))
  unfolding receive_all answers
  receive_all-own_frames k node node' [] ids entries = (entries, refl)
  receive_all-own_frames k node node' (frame ∷ frames) ids entries =
      let after = (try_receive_frame manager node frame).0 in
      let after' = (try_receive_frame manager node' frame).0 in
      let kept = frame_id node frame in
      let kept' = frame_id node' frame in
      elim (Bool-cases (belongs k node.id frame)) [
        | inl own ↦
            let own' = rw ids at own in
            let step = frame_own k node node' frame ids entries own in
            let rest =
              receive_all-own_frames k after after' frames (kept ∙ ids ∙ sym kept')
                (ap (λ (p : Rx T × Answer). p.0) step) in
            let rest' = rw kept at rest in
            let now = ap (λ (p : Rx T × Answer). p.1) step in
            rw own (
              rw own' (
                rest'.0,
                ap (λ (a : Answer). a ∷ answers k after frames) now
                    ∙ ap (◌∷◌ ((try_receive_frame manager node' frame).1)) rest'.1,
              ))
        | inr other ↦
            let rest =
              receive_all-own_frames k after node' frames (kept ∙ ids)
                (frame_other k node frame other ∙ entries) in
            rw other (rw kept at rest)
      ]
