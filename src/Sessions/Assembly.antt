-- ===== src/Sessions/Assembly.antt =====
-- A transfer of several frames at a subscription: what `Subscription::update` of
-- cyphal/src/transfer/heap_manager.rs makes of them, one after the other.
use mathlib.Core.List.{append_assoc, append-nil}
use cyphal_rs.Base.{
  ℕ, ◌+◌, ◌≤◌, ◌≡◌, ◌≢◌, refl, ap, ◌∙◌, true, false, not, Option, none, some, Bool-cases, inl, inr,
  ◌⊎◌, List, [], ◌∷◌, ◌++◌, ◌==◌, if◌then◌else◌, length, take, length-take, length-append, Result,
  ok, err, panic, arith,
}
use cyphal_rs.Clock.{Clock}
use cyphal_rs.HashMap.{get, get-insert_self}
use cyphal_rs.Manager.{timestamp_expired}
use cyphal_rs.Sessions.Api.{SessionApi}
use cyphal_rs.Sessions.Heap.{
  Session, Subscribed, new_session, store_session, copy_payload, accept_session, accept_frame,
  update_session, update_known, update,
}
use cyphal_rs.Types.{NodeId, TransferId}

module _ ⦃clock : Clock⦄ ⦃api : SessionApi clock⦄ where
  -- Frame after frame, up to the first answer that is not "nothing yet".
  unfoldable pub updates :
      Subscribed → List api.Frame → Subscribed × Result api.SessionError (Option api.Transfer)
  updates self [] = (self, ok none)
  updates self (f ∷ fs) =
      let (self', result) = update self f in
      elim result [
        | ok none ↦ updates self' fs
        | ok (some transfer) ↦ (self', ok (some transfer))
        | err e ↦ (self', err e)
        | panic ↦ (self', panic)
      ]

  -- The metadata after a frame, and how many of its bytes are payload.
  abbrev pub next : api.Metadata → api.Frame → api.Metadata
  next md f = (api.update md f).0

  abbrev pub taken : api.Metadata → api.Frame → ℕ
  taken md f = elim ((api.update md f).1) [ none ↦ 0 | some n ↦ n ]

  -- The payload of a run of frames, and its last frame.
  abbrev pub kept : api.Metadata → List api.Frame → List ℕ
  kept md [] = []
  kept md (f ∷ fs) = take (taken md f) (api.payload f) ++ kept (next md f) fs

  abbrev pub final : api.Frame → List api.Frame → api.Frame
  final f [] = f
  final f (g ∷ fs) = final g fs

  -- A frame of transfer `transfer_id` from node `id` that the metadata takes.
  pub record Takes (id : NodeId) (transfer_id : TransferId) (md : api.Metadata) (f : api.Frame)
      : Type 0 where
    pub source_eq : api.source_node_id f ≡ some id
    pub transfer_id_eq : api.transfer_id f ≡ transfer_id
    pub answer_eq : (api.update md f).1 ≡ some (taken md f)
    pub room : taken md f ≤ length (api.payload f)

  -- The frames from `f` on are of one transfer, the last of them and no other ends it, and the
  -- metadata finds the whole valid.
  abbrev pub Runs : NodeId → TransferId → api.Metadata → api.Frame → List api.Frame → Type 0
  Runs id transfer_id md f [] =
      Takes id transfer_id md f
      × (api.end_of_transfer f ≡ true)
      × (api.is_valid (next md f) f ≡ true)
  Runs id transfer_id md f (g ∷ fs) =
      Takes id transfer_id md f
      × (api.end_of_transfer f ≡ false)
      × Runs id transfer_id (next md f) g fs

  -- Frames that do not start a transfer, and come before the one that started at `start` expires.
  abbrev pub Later : ℕ → clock.Instant → List api.Frame → Type 0
  Later timeout start [] = Unit {0}
  Later timeout start (f ∷ fs) =
      (api.start_of_transfer f ≡ false)
      × (timestamp_expired {E = api.SessionError} timeout (api.timestamp f) (some start) ≡ ok false)
      × Later timeout start fs

  -- The session after it has taken a frame.
  abbrev grown : Session → clock.Instant → api.Frame → Session
  grown session start f = record {
    timestamp = some start;
    payload = session.payload ++ take (taken session.md f) (api.payload f);
    transfer_id = session.transfer_id;
    md = next session.md f;
  }

  accept_session_lem :
      (self : Subscribed) (id : NodeId) (session : Session) (start : clock.Instant) (f : api.Frame)
      → (if api.start_of_transfer f then some (api.timestamp f) else session.timestamp) ≡ some start
      → Takes id session.transfer_id session.md f
      → length session.payload + taken session.md f ≤ self.sub.extent
      → accept_session self id session f ≡ (
        store_session self id (grown session start f),
        if not (api.end_of_transfer f)
            then ok none
            else if not (api.is_valid (next session.md f) f)
            then err api.bad_metadata
            else ok (some (api.from_frame f start (grown session start f).payload)),
      )
  unfolding accept_session copy_payload
  accept_session_lem self id session start f stamped takes fits =
      let answer = takes.answer_eq in
      let room = takes.room in
      elim (Bool-cases (api.start_of_transfer f)) [ inl e ↦ ground arith | inr e ↦ ground arith ]

  pub later_update_lem :
      (self : Subscribed) (id : NodeId) (session : Session) (start : clock.Instant) (f : api.Frame)
      → get id self.sessions ≡ some session
      → session.timestamp ≡ some start
      → api.source_node_id f ≡ some id
      → api.transfer_id f ≡ session.transfer_id
      → timestamp_expired {E = api.SessionError} self.sub.timeout (api.timestamp f) (some start)
        ≡ ok false
      → update self f ≡ accept_session self id session f
  unfolding update update_known update_session accept_frame
  later_update_lem self id session start f found stamped source named fresh = ground arith

  updates_more :
      (self self' : Subscribed) (f : api.Frame) (fs : List api.Frame)
      (result : Result api.SessionError (Option api.Transfer))
      → update self f ≡ (self', result)
      → result ≡ ok none
      → updates self (f ∷ fs) ≡ updates self' fs
  unfolding updates
  updates_more self self' f fs result e none_yet = ground arith

  updates_done :
      (self self' : Subscribed) (f : api.Frame) (fs : List api.Frame) (transfer : api.Transfer)
      (result : Result api.SessionError (Option api.Transfer))
      → update self f ≡ (self', result)
      → result ≡ ok (some transfer)
      → (updates self (f ∷ fs)).1 ≡ ok (some transfer)
  unfolding updates
  updates_done self self' f fs transfer result e made = ground arith

  head-Takes :
      (id : NodeId) (transfer_id : TransferId) (md : api.Metadata) (f : api.Frame)
      (fs : List api.Frame)
      → Runs id transfer_id md f fs
      → Takes id transfer_id md f
  head-Takes id transfer_id md f [] (takes, _, _) = takes
  head-Takes id transfer_id md f (g ∷ fs) (takes, _, _) = takes

  -- Once a frame is with the session that it is for, it and the frames behind it make a transfer.
  assembled :
      (self there : Subscribed) (id : NodeId) (session : Session) (start : clock.Instant)
      (f : api.Frame) (fs : List api.Frame)
      → update self f ≡ accept_session there id session f
      → (if api.start_of_transfer f then some (api.timestamp f) else session.timestamp) ≡ some start
      → Runs id session.transfer_id session.md f fs
      → Later there.sub.timeout start fs
      → length session.payload + length (kept session.md (f ∷ fs)) ≤ there.sub.extent
      → (updates self (f ∷ fs)).1
        ≡ ok
            (some (api.from_frame (final f fs) start (session.payload ++ kept session.md (f ∷ fs))))
  unfolding updates
  assembled self there id session start f [] enters stamped (takes, ended, valid) later fits =
      let chunk = take (taken session.md f) (api.payload f) in
      let len = length-take (taken session.md f) (api.payload f) in
      let room = takes.room in
      let whole : chunk ++ [] ≡ chunk = append-nil chunk in
      let len' : length (chunk ++ []) ≡ length chunk = ap length whole in
      let accepts = accept_session_lem there id session start f stamped takes (omega arith) in
      updates_done self _ f [] _ _ (enters ∙ accepts) (rw (ended, valid, whole) refl)
  assembled self there id session start f (g ∷ fs) enters stamped (takes, unended, runs)
        (plain, fresh, later) fits =
      let chunk = take (taken session.md f) (api.payload f) in
      let rest = kept (next session.md f) (g ∷ fs) in
      let len = length-take (taken session.md f) (api.payload f) in
      let len' = length-append chunk rest in
      let len″ = length-append session.payload chunk in
      let room = takes.room in
      let accepts = accept_session_lem there id session start f stamped takes (omega arith) in
      let session' = grown session start f in
      let there' = store_session there id session' in
      let first = head-Takes id session.transfer_id (next session.md f) g fs runs in
      let enters' =
        later_update_lem there' id session' start g (get-insert_self id session' there.sessions)
          refl first.source_eq first.transfer_id_eq fresh in
      let rest_lem =
        assembled there' there' id session' start g fs enters' (rw plain refl) runs later
          (omega arith) in
      ap (λ (r : Subscribed × Result api.SessionError (Option api.Transfer)). r.1)
        (updates_more self there' f (g ∷ fs) _ (enters ∙ accepts) (rw unended refl))
      ∙ rest_lem
      ∙ ap (λ (bytes : List ℕ). ok (some (api.from_frame (final g fs) start bytes)))
          (append_assoc session.payload chunk rest)

  -- The first frame of a transfer makes the session new, whether there is none from its node or one
  -- of another transfer.
  enters_new :
      (self : Subscribed) (id : NodeId) (f : api.Frame)
      → api.source_node_id f ≡ some id
      → api.start_of_transfer f ≡ true
      → (get id self.sessions ≡ none)
        ⊎ ((session : Session) × (get id self.sessions ≡ some session)
            × (session.transfer_id ≢ api.transfer_id f))
      → update self f ≡ (
          let fresh = new_session (api.transfer_id f) none in
          accept_session (store_session self id fresh) id fresh f)
  unfolding update update_known update_session accept_frame
  enters_new self id f source begins (inl absent) =
      let fresh = new_session (api.transfer_id f) none in
      let found = get-insert_self id fresh self.sessions in ground arith
  enters_new self id f source begins (inr (session, there, other)) =
      let fresh = new_session (api.transfer_id f) none in
      let found = get-insert_self id fresh self.sessions in
      let differs : (session.transfer_id == api.transfer_id f) ≡ false = ground arith in
      ground arith

  -- The frames of one transfer from a known node, the first of which starts it, the last and no
  -- other ends it, and none comes after the subscription's timeout; no session of that node is
  -- there, or one of another transfer; the metadata takes each frame, with a count of payload bytes
  -- that the frame has, and finds the last valid; the payload fits the extent. Then the updates
  -- answer nothing until the last frame, and this the transfer: its frame, the time of the first
  -- frame, and the payload bytes of all frames in order.
  pub updates_lem :
      (self : Subscribed) (id : NodeId) (f : api.Frame) (fs : List api.Frame)
      → api.start_of_transfer f ≡ true
      → (get id self.sessions ≡ none)
        ⊎ ((session : Session) × (get id self.sessions ≡ some session)
            × (session.transfer_id ≢ api.transfer_id f))
      → Runs id (api.transfer_id f) api.new f fs
      → Later self.sub.timeout (api.timestamp f) fs
      → length (kept api.new (f ∷ fs)) ≤ self.sub.extent
      → (updates self (f ∷ fs)).1
        ≡ ok (some (api.from_frame (final f fs) (api.timestamp f) (kept api.new (f ∷ fs))))
  updates_lem self id f fs begins unseen runs later fits =
      let fresh = new_session (api.transfer_id f) none in
      let first = head-Takes id (api.transfer_id f) api.new f fs runs in
      assembled self (store_session self id fresh) id fresh (api.timestamp f) f fs
        (enters_new self id f first.source_eq begins unseen) (rw begins refl) runs later
        (omega arith)
