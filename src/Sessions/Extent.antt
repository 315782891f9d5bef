-- ===== src/Sessions/Extent.antt =====
-- A payload that goes past the extent of its subscription, cyphal/src/transfer/heap_manager.rs.
use cyphal_rs.Base.{
  ℕ, ◌+◌, ◌-◌, ◌≤◌, ◌<◌, ◌≡◌, refl, ◌∙◌, ap, Bool-cases, inl, inr, false, Option, some, ◌++◌,
  if◌then◌else◌, length, take, length-take, length-append, Result, ok, panic, arith,
}
use cyphal_rs.Clock.{Clock}
use cyphal_rs.HashMap.{get, get-insert_self}
use cyphal_rs.Manager.{timestamp_expired}
use cyphal_rs.Sessions.Api.{SessionApi}
use cyphal_rs.Sessions.Assembly.{Takes, taken, later_update_lem}
use cyphal_rs.Sessions.Heap.{
  Session, Subscribed, store_session, accept_session, copy_payload, update,
}
use cyphal_rs.Types.{NodeId}

module _ ⦃clock : Clock⦄ ⦃api : SessionApi clock⦄ where
  -- The session that takes a frame, before its payload is copied.
  abbrev updated : Session → api.Frame → Session
  updated session f = record session {
    timestamp = if api.start_of_transfer f then some (api.timestamp f) else session.timestamp;
    md = (api.update session.md f).0;
  }

  accept_session_copies :
      (self : Subscribed) (id : NodeId) (session : Session) (f : api.Frame)
      → Takes id session.transfer_id session.md f
      → accept_session self id session f
        ≡ copy_payload self id (updated session f) f (taken session.md f)
  unfolding accept_session
  accept_session_copies self id session f takes =
      let answer = takes.answer_eq in
      elim (Bool-cases (api.start_of_transfer f)) [ inl e ↦ ground arith | inr e ↦ ground arith ]

  copy_past_extent :
      (self : Subscribed) (id : NodeId) (session : Session) (f : api.Frame) (len excess : ℕ)
      → excess ≡ length session.payload + len - self.sub.extent
      → self.sub.extent < length session.payload + len
      → excess ≤ length (api.payload f)
      → (copy_payload self id session f len).0
        ≡ store_session self id
            (record session { payload = session.payload ++ take excess (api.payload f) })
  unfolding copy_payload
  copy_past_extent self id session f len excess e over room = ground arith

  copy_past_extent_panic :
      (self : Subscribed) (id : NodeId) (session : Session) (f : api.Frame) (len : ℕ)
      → self.sub.extent < length session.payload + len
      → length (api.payload f) < length session.payload + len - self.sub.extent
      → (copy_payload self id session f len).1 ≡ panic
  unfolding copy_payload
  copy_past_extent_panic self id session f len over short = ground arith

module _ ⦃clock : Clock⦄ ⦃api : SessionApi clock⦄ (self : Subscribed) (id : NodeId)
    (session : Session) (start : clock.Instant) (f : api.Frame)
    (found : get id self.sessions ≡ some session) (stamped : session.timestamp ≡ some start)
    (takes : Takes id session.transfer_id session.md f)
    (fresh : timestamp_expired {E = api.SessionError} self.sub.timeout
        (api.timestamp f)
        (some start)
      ≡ ok false)
    (over : self.sub.extent < length session.payload + taken session.md f) where
  -- By how much the payload is too long.
  abbrev excess : ℕ
  excess = length session.payload + taken session.md f - self.sub.extent

  enters : update self f ≡ accept_session self id session f
  enters =
      later_update_lem self id session start f found stamped takes.source_eq takes.transfer_id_eq
        fresh

  -- A frame of the transfer that a session holds, within its timeout, whose payload goes past the
  -- extent, but by no more bytes than the frame has. The code keeps that many of its bytes, and not
  -- as many as there is room for.
  pub update_past_extent :
      excess ≤ length (api.payload f)
      → (session' : Session) × (get id (update self f).0.sessions ≡ some session')
        × (session'.payload ≡ session.payload ++ take excess (api.payload f))
        × (length session'.payload ≡ length session.payload + excess)
  update_past_extent room =
      let session' : Session = record (updated session f) {
        payload = session.payload ++ take excess (api.payload f);
      } in
      let stores =
        ap (λ (r : Subscribed × Result api.SessionError (Option api.Transfer)). r.0)
          (enters ∙ accept_session_copies self id session f takes)
        ∙ copy_past_extent self id (updated session f) f (taken session.md f) excess refl over
            room in
      (
        session',
        rw stores (get-insert_self id session' self.sessions),
        refl,
        omega (
          arith,
          length-append session.payload (take excess (api.payload f)),
          length-take excess (api.payload f),
        ),
      )

  -- If it goes past the extent by more bytes than the frame has, the update panics.
  update_past_extent_panic : length (api.payload f) < excess → (update self f).1 ≡ panic
  update_past_extent_panic short =
      ap (λ (r : Subscribed × Result api.SessionError (Option api.Transfer)). r.1)
        (enters ∙ accept_session_copies self id session f takes)
      ∙ copy_past_extent_panic self id (updated session f) f (taken session.md f) over short
