-- ===== src/Sessions/StdVec.antt =====
-- `StdVecSessionManager`, cyphal/src/transfer/std_vec.rs. Its data, whose text is that of
-- heap_manager.rs, are those of `Sessions.Heap`; so is `store_session`, a write to an entry.
use cyphal_rs.Base.{
  ℕ, ◌+◌, ◌-◌, ltb, length, take, unwrap, not, Option, none, some, List, [], ◌∷◌, ◌++◌, set, true,
  false, ◌==◌, if◌then◌else◌, Result, ok, err, panic, ◌>>=◌,
}
use cyphal_rs.Clock.{Clock}
use cyphal_rs.HashMap.{get, for_values}
use cyphal_rs.Manager.{timestamp_expired}
use cyphal_rs.Sessions.Api.{SessionApi}
use cyphal_rs.Sessions.Heap.{
  Session, Subscribed, new_subscription, store_session, has_sub, position, remove_at, any,
}
use cyphal_rs.Types.{NodeId, TransferId, Subscription}

module _ ⦃clock : Clock⦄ ⦃api : SessionApi clock⦄ where
  abbrev pub new_session : TransferId → Session
  new_session transfer_id = record {
    timestamp = none;
    payload = [];
    transfer_id = transfer_id;
    md = api.new;
  }

  -- The end of `accept_frame`, where the metadata has taken the frame.
  unfoldable pub copy_payload :
      Subscribed
      → NodeId
      → Session
      → api.Frame
      → ℕ
      → Subscribed × Result api.SessionError (Option api.Transfer)
  copy_payload self id session frame len =
      let total = length session.payload + len in
      let copied = if ltb self.sub.extent total then total - self.sub.extent else len in
      if ltb (length (api.payload frame)) copied
      then (store_session self id session, panic)
      else (let whole : Session = record session {
        payload = session.payload ++ take copied (api.payload frame);
      } in
          (
            store_session self id whole,
            if not (api.end_of_transfer frame)
                then ok none
                else if not (api.is_valid whole.md frame)
                then err api.bad_metadata
                else (do
                  timestamp ← unwrap whole.timestamp
                  ok (some (api.from_frame frame timestamp whole.payload))),
          ))

  -- `accept_frame`: the session is there, or `unwrap` panics.
  unfoldable pub accept_frame :
      Subscribed → NodeId → api.Frame → Subscribed × Result api.SessionError (Option api.Transfer)
  accept_frame self id frame = elim (get id self.sessions) [
    | none ↦ (self, panic)
    | some session ↦
        let stamped : Session =
          if api.start_of_transfer frame
          then record session { timestamp = some (api.timestamp frame) }
          else session in
        let (md, taken) = api.update stamped.md frame in
        let updated : Session = record stamped { md = md } in
        elim taken [
          | none ↦ (store_session self id updated, err api.bad_metadata)
          | some len ↦ copy_payload self id updated frame len
        ]
  ]

  -- The code after the entry of the map is made sure of; the indexing panics without one.
  unfoldable pub check_session :
      Subscribed → NodeId → api.Frame → Subscribed × Result api.SessionError (Option api.Transfer)
  check_session self id frame = elim (get id self.sessions) [
    | none ↦ (self, panic)
    | some session ↦
        if not (session.transfer_id == api.transfer_id frame)
        then accept_frame (store_session self id (new_session (api.transfer_id frame))) id frame
        else elim (timestamp_expired {E = api.SessionError} self.sub.timeout (api.timestamp frame)
            session.timestamp) [
              | panic ↦ (self, panic)
              | err e ↦ (self, err e)
              | ok true ↦ (store_session self id (new_session session.transfer_id), err api.timeout)
              | ok false ↦ accept_frame self id frame
            ]
  ]

  unfoldable pub update_entry :
      Subscribed → NodeId → api.Frame → Subscribed × Result api.SessionError (Option api.Transfer)
  update_entry self id frame = elim (get id self.sessions) [
    | none ↦
        if not (api.start_of_transfer frame)
        then (self, err api.new_session_no_start)
        else check_session (store_session self id (new_session (api.transfer_id frame))) id frame
    | some _ ↦ check_session self id frame
  ]

  unfoldable pub update :
      Subscribed → api.Frame → Subscribed × Result api.SessionError (Option api.Transfer)
  update self frame = elim (api.source_node_id frame) [
    | none ↦ (self, panic)
    | some id ↦ update_entry self id frame
  ]

  pub record StdVecSessionManager : Type 0 where
    pub subscriptions : List Subscribed

  abbrev pub new : StdVecSessionManager
  new = record { subscriptions = [] }

  unfoldable pub edit_subscription :
      StdVecSessionManager
      → Subscription
      → StdVecSessionManager × Result api.SubscriptionError (Unit {0})
  edit_subscription self subscription = elim (position (has_sub subscription) self.subscriptions) [
    | some pos ↦ (
      record { subscriptions = set self.subscriptions pos (new_subscription subscription) },
      ok tt,
    )
    | none ↦ (self, err api.subscription_does_not_exist)
  ]

  unfoldable pub subscribe :
      StdVecSessionManager
      → Subscription
      → StdVecSessionManager × Result api.SubscriptionError (Unit {0})
  subscribe self subscription =
      if any (has_sub subscription) self.subscriptions
      then (self, err api.subscription_exists)
      else (
        record { subscriptions = self.subscriptions ++ (new_subscription subscription ∷ []) },
        ok tt,
      )

  unfoldable pub unsubscribe :
      StdVecSessionManager
      → Subscription
      → StdVecSessionManager × Result api.SubscriptionError (Unit {0})
  unsubscribe self subscription = elim (position (has_sub subscription) self.subscriptions) [
    | some pos ↦ (record { subscriptions = remove_at self.subscriptions pos }, ok tt)
    | none ↦ (self, err api.subscription_does_not_exist)
  ]

  unfoldable pub ingest_first :
      List Subscribed → api.Frame → List Subscribed × Result api.SessionError (Option api.Transfer)
  ingest_first [] frame = ([], ok none)
  ingest_first (s ∷ rest) frame =
      let (rest', later) = ingest_first rest frame in
      let (s', now) = update s frame in
      if api.matches_sub s.sub frame then (s' ∷ rest, now) else (s ∷ rest', later)

  unfoldable pub ingest :
      StdVecSessionManager
      → api.Frame
      → StdVecSessionManager × Result api.SessionError (Option api.Transfer)
  ingest self frame =
      let (subscriptions, result) = ingest_first self.subscriptions frame in
      (record { subscriptions = subscriptions }, result)

  unfoldable pub refresh : {E : Type 0} → Subscription → clock.Instant → Session → Result E Session
  refresh {E} sub timestamp session = do
    expired ← timestamp_expired {E = E} sub.timeout timestamp session.timestamp
    ok (if expired then new_session session.transfer_id else session)

  unfoldable pub refresh_all :
      {E : Type 0} → clock.Instant → List Subscribed → Result E (List Subscribed)
  refresh_all timestamp [] = ok []
  refresh_all {E} timestamp (s ∷ rest) = do
    sessions ← for_values (refresh {E = E} s.sub timestamp) s.sessions
    rest' ← refresh_all timestamp rest
    ok (record { sub = s.sub; sessions = sessions } ∷ rest')

  unfoldable pub update_sessions :
      {E : Type 0} → StdVecSessionManager → clock.Instant → Result E StdVecSessionManager
  update_sessions self timestamp = do
    subscriptions ← refresh_all timestamp self.subscriptions
    ok (record { subscriptions = subscriptions })
