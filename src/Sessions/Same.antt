-- ===== src/Sessions/Same.antt =====
-- The two session managers behave alike.
use cyphal_rs.Base.{
  ◌≡◌, refl, true, none, some, Option-cases, List, [], ◌∷◌, ◌==◌, inl, inr, Result, ok, err, panic,
  Result-cases, arith,
}
use cyphal_rs.Clock.{Clock}
use cyphal_rs.HashMap.{get, get-insert_self}
use cyphal_rs.Manager.{timestamp_expired}
use cyphal_rs.Sessions.Api.{SessionApi}
use cyphal_rs.Sessions.Heap
use cyphal_rs.Sessions.Heap.{Session, Subscribed, HeapSessionManager, store_session}
use cyphal_rs.Sessions.StdVec
use cyphal_rs.Sessions.StdVec.{StdVecSessionManager}
use cyphal_rs.Types.{NodeId, Subscription}

module _ ⦃clock : Clock⦄ ⦃api : SessionApi clock⦄ where
  -- The same subscriptions in the other manager.
  abbrev pub as_heap : StdVecSessionManager → HeapSessionManager
  as_heap self = record { subscriptions = self.subscriptions }

  abbrev pub map_ok {ℓ κ ι} :
      {E : Type ℓ} {A : Type κ} {B : Type ι} → (A → B) → Result E A → Result E B
  map_ok f panic = panic
  map_ok f (err e) = err e
  map_ok f (ok a) = ok (f a)

  -- The result of an operation, with the state in the other manager.
  abbrev pub agree {ℓ} : {A : Type ℓ} → StdVecSessionManager × A → HeapSessionManager × A
  agree (self, a) = (as_heap self, a)

  accept_frame_lem :
      (self : Subscribed) (id : NodeId) (frame : api.Frame)
      → StdVec.accept_frame self id frame ≡ Heap.accept_frame self id frame
  unfolding StdVec.accept_frame StdVec.copy_payload Heap.accept_frame Heap.accept_session
      Heap.copy_payload
  accept_frame_lem self id frame = elim (Option-cases (get id self.sessions)) [
    | inl e ↦ rw (StdVec.accept_frame, Heap.accept_frame, e) refl
    | inr (session, e) ↦ rw (StdVec.accept_frame, Heap.accept_frame, e, Heap.accept_session) refl
  ]

  check_session_lem :
      (self : Subscribed) (id : NodeId) (session : Session) (frame : api.Frame)
      → get id self.sessions ≡ some session
      → StdVec.check_session self id frame ≡ Heap.update_session self id session frame
  unfolding StdVec.check_session Heap.update_session
  check_session_lem self id session frame found = ground (
    arith,
    accept_frame_lem self id frame,
    accept_frame_lem (store_session self id (StdVec.new_session (api.transfer_id frame))) id frame,
  )

  -- A new session has the transfer ID of its frame, and no time to expire from.
  check_new_session_lem :
      (self : Subscribed) (id : NodeId) (frame : api.Frame) (session : Session)
      → session.transfer_id ≡ api.transfer_id frame
      → session.timestamp ≡ none
      → get id self.sessions ≡ some session
      → StdVec.check_session self id frame ≡ Heap.accept_frame self id frame
  unfolding StdVec.check_session timestamp_expired
  check_new_session_lem self id frame session named fresh found =
      let same : (session.transfer_id == api.transfer_id frame) ≡ true = ground arith in
      rw (StdVec.check_session, found, same, fresh) (accept_frame_lem self id frame)

  update_entry_lem :
      (self : Subscribed) (id : NodeId) (frame : api.Frame)
      → StdVec.update_entry self id frame ≡ Heap.update_known self id frame
  unfolding StdVec.update_entry Heap.update_known
  update_entry_lem self id frame =
      let fresh = StdVec.new_session (api.transfer_id frame) in
      let checks =
        check_new_session_lem (store_session self id fresh) id frame fresh refl refl
          (get-insert_self id fresh self.sessions) in
      elim (Option-cases (get id self.sessions)) [
        | inr (session, found) ↦
            rw (StdVec.update_entry, Heap.update_known, found)
              (check_session_lem self id session frame found)
        | inl absent ↦ rw (StdVec.update_entry, Heap.update_known, absent, checks) refl
      ]

  update_lem :
      (self : Subscribed) (frame : api.Frame) → StdVec.update self frame ≡ Heap.update self frame
  unfolding StdVec.update Heap.update
  update_lem self frame = elim (Option-cases (api.source_node_id frame)) [
    | inl e ↦ rw (StdVec.update, Heap.update, e) refl
    | inr (id, e) ↦ rw (StdVec.update, Heap.update, e) (update_entry_lem self id frame)
  ]

  ingest_first_lem :
      (subscriptions : List Subscribed) (frame : api.Frame)
      → StdVec.ingest_first subscriptions frame ≡ Heap.ingest_first subscriptions frame
  unfolding StdVec.ingest_first Heap.ingest_first
  ingest_first_lem [] frame = refl
  ingest_first_lem (s ∷ rest) frame = rw (ingest_first_lem rest frame, update_lem s frame) refl

  refresh_all_lem :
      {E : Type 0} (timestamp : clock.Instant) (subscriptions : List Subscribed)
      → StdVec.refresh_all {E = E} timestamp subscriptions
        ≡ Heap.refresh_all timestamp subscriptions
  unfolding StdVec.refresh_all Heap.refresh_all StdVec.refresh Heap.refresh
  refresh_all_lem timestamp [] = refl
  refresh_all_lem {E} timestamp (s ∷ rest) = simp (refresh_all_lem {E = E} timestamp rest)

  update_sessions_lem :
      {E : Type 0} (self : StdVecSessionManager) (timestamp : clock.Instant)
      → map_ok as_heap (StdVec.update_sessions {E = E} self timestamp)
        ≡ Heap.update_sessions (as_heap self) timestamp
  unfolding StdVec.update_sessions Heap.update_sessions
  update_sessions_lem {E} self timestamp =
      let same = refresh_all_lem {E = E} timestamp self.subscriptions in
      elim (Result-cases (Heap.refresh_all {E = E} timestamp self.subscriptions)) [
        | inl e ↦ rw (StdVec.update_sessions, Heap.update_sessions, same, e) refl
        | inr (inl (_, e)) ↦ rw (StdVec.update_sessions, Heap.update_sessions, same, e) refl
        | inr (inr (_, e)) ↦ rw (StdVec.update_sessions, Heap.update_sessions, same, e) refl
      ]

  -- Whatever its state, `StdVecSessionManager` returns what `HeapSessionManager` returns in the
  -- same state, and leaves the same state: for `subscribe`, `unsubscribe`, `edit_subscription`, the
  -- frames that `ingest` takes, and the timeouts of `update_sessions`.
  pub StdVecSessionManager-HeapSessionManager :
      {E : Type 0} (self : StdVecSessionManager) (subscription : Subscription) (frame : api.Frame)
      (timestamp : clock.Instant)
      → (agree (StdVec.subscribe self subscription) ≡ Heap.subscribe (as_heap self) subscription)
        × (agree (StdVec.unsubscribe self subscription)
            ≡ Heap.unsubscribe (as_heap self) subscription)
        × (agree (StdVec.edit_subscription self subscription)
            ≡ Heap.edit_subscription (as_heap self) subscription)
        × (agree (StdVec.ingest self frame) ≡ Heap.ingest (as_heap self) frame)
        × (map_ok as_heap (StdVec.update_sessions {E = E} self timestamp)
            ≡ Heap.update_sessions (as_heap self) timestamp)
  unfolding StdVec.subscribe Heap.subscribe StdVec.unsubscribe Heap.unsubscribe
      StdVec.edit_subscription Heap.edit_subscription StdVec.ingest Heap.ingest
  StdVecSessionManager-HeapSessionManager self subscription frame timestamp = (
    ground arith,
    ground arith,
    ground arith,
    rw (ingest_first_lem self.subscriptions frame) refl,
    update_sessions_lem self timestamp,
  )
