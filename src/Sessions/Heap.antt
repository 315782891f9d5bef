-- ===== src/Sessions/Heap.antt =====
-- `HeapSessionManager`, cyphal/src/transfer/heap_manager.rs. The map of sessions is a `BTreeMap`, of
-- which no code uses the order.
use cyphal_rs.Base.{
  ℕ, zero, suc, ◌+◌, ◌-◌, Bool, true, false, not, Option, none, some, List, [], ◌∷◌, ◌++◌, ltb,
  ◌==◌, if◌then◌else◌, length, take, set, Result, ok, err, panic, ◌>>=◌, unwrap,
}
use cyphal_rs.Clock.{Clock}
use cyphal_rs.HashMap.{get, insert, for_values}
use cyphal_rs.Manager.{timestamp_expired}
use cyphal_rs.Sessions.Api.{SessionApi}
use cyphal_rs.Types.{NodeId, TransferId, Subscription, subscription_eq}

-- `iter().position(…)` and `Vec::remove`.
abbrev pub position {ℓ} : {A : Type ℓ} → (A → Bool) → List A → Option ℕ
position p [] = none
position p (x ∷ xs) =
    if p x then some 0 else elim (position p xs) [ none ↦ none | some i ↦ some (suc i) ]

abbrev pub remove_at {ℓ} : {A : Type ℓ} → List A → ℕ → List A
remove_at [] i = []
remove_at (x ∷ xs) zero = xs
remove_at (x ∷ xs) (suc i) = x ∷ remove_at xs i

-- `iter().any(…)`.
abbrev pub any {ℓ} : {A : Type ℓ} → (A → Bool) → List A → Bool
any p [] = false
any p (x ∷ xs) = if p x then true else any p xs

module _ ⦃clock : Clock⦄ ⦃api : SessionApi clock⦄ where
  pub record Session : Type 0 where
    pub timestamp : Option clock.Instant
    pub payload : List ℕ
    pub transfer_id : TransferId
    pub md : api.Metadata

  -- The payload's capacity is no part of the model.
  abbrev pub new_session : TransferId → Option ℕ → Session
  new_session transfer_id known_max_payload_size = record {
    timestamp = none;
    payload = [];
    transfer_id = transfer_id;
    md = api.new;
  }

  abbrev pub reset : Session → Session
  reset session = record session { payload = []; timestamp = none; md = api.new }

  abbrev pub reset_to_new_transfer_id : Session → TransferId → Session
  reset_to_new_transfer_id session transfer_id = record (reset session) {
    transfer_id = transfer_id;
  }

  -- The `Subscription` of the managers.
  pub record Subscribed : Type 0 where
    pub sub : Subscription
    pub sessions : List (ℕ × Session)

  abbrev pub new_subscription : Subscription → Subscribed
  new_subscription sub = record { sub = sub; sessions = [] }

  -- How much of a frame with `len` bytes of payload is kept.
  abbrev pub payload_to_copy : Subscribed → Session → ℕ → ℕ
  payload_to_copy self session len =
      if ltb self.sub.extent (length session.payload + len)
      then length session.payload + len - self.sub.extent
      else len

  -- The entry of the map, after a change to the session.
  abbrev pub store_session : Subscribed → NodeId → Session → Subscribed
  store_session self id session = record self { sessions = insert id session self.sessions }

  -- The end of `accept_frame`, where the metadata has taken the frame.
  unfoldable pub copy_payload :
      Subscribed
      → NodeId
      → Session
      → api.Frame
      → ℕ
      → Subscribed × Result api.SessionError (Option api.Transfer)
  copy_payload self id session frame len =
      let copied = payload_to_copy self session len in
      if ltb (length (api.payload frame)) copied
      then (store_session self id session, panic)
      else (let session' : Session = record session {
        payload = session.payload ++ take copied (api.payload frame);
      } in
          (
            store_session self id session',
            if not (api.end_of_transfer frame)
                then ok none
                else if not (api.is_valid session'.md frame)
                then err api.bad_metadata
                else (do
                  timestamp ← unwrap session'.timestamp
                  ok (some (api.from_frame frame timestamp session'.payload))),
          ))

  unfoldable pub accept_session :
      Subscribed
      → NodeId
      → Session
      → api.Frame
      → Subscribed × Result api.SessionError (Option api.Transfer)
  accept_session self id session frame =
      let stamped : Session =
        if api.start_of_transfer frame
        then record session { timestamp = some (api.timestamp frame) }
        else session in
      let (md, taken) = api.update stamped.md frame in
      let updated : Session = record stamped { md = md } in
      elim taken [
        | none ↦ (store_session self id updated, err api.bad_metadata)
        | some len ↦ copy_payload self id updated frame len
      ]

  -- `accept_frame`: the session is there, or `unwrap` panics.
  unfoldable pub accept_frame :
      Subscribed → NodeId → api.Frame → Subscribed × Result api.SessionError (Option api.Transfer)
  accept_frame self id frame = elim (get id self.sessions) [
    | none ↦ (self, panic)
    | some session ↦ accept_session self id session frame
  ]

  -- The arms of `update` for a session that is there.
  unfoldable pub update_session :
      Subscribed
      → NodeId
      → Session
      → api.Frame
      → Subscribed × Result api.SessionError (Option api.Transfer)
  update_session self id session frame =
      if not (session.transfer_id == api.transfer_id frame)
      then accept_frame
          (store_session self id (reset_to_new_transfer_id session (api.transfer_id frame))) id
          frame
      else elim (timestamp_expired {E = api.SessionError} self.sub.timeout (api.timestamp frame)
          session.timestamp) [
            | panic ↦ (self, panic)
            | err e ↦ (self, err e)
            | ok true ↦ (store_session self id (reset session), err api.timeout)
            | ok false ↦ accept_frame self id frame
          ]

  unfoldable pub update_known :
      Subscribed → NodeId → api.Frame → Subscribed × Result api.SessionError (Option api.Transfer)
  update_known self id frame = elim (get id self.sessions) [
    | none ↦
        if not (api.start_of_transfer frame)
        then (self, err api.new_session_no_start)
        else accept_frame
            (store_session self id (new_session (api.transfer_id frame) (some self.sub.extent))) id
            frame
    | some session ↦ update_session self id session frame
  ]

  -- `Subscription::update`; a frame without a source makes `unwrap` panic.
  unfoldable pub update :
      Subscribed → api.Frame → Subscribed × Result api.SessionError (Option api.Transfer)
  update self frame = elim (api.source_node_id frame) [
    | none ↦ (self, panic)
    | some id ↦ update_known self id frame
  ]

  pub record HeapSessionManager : Type 0 where
    pub subscriptions : List Subscribed

  abbrev pub new : HeapSessionManager
  new = record { subscriptions = [] }

  abbrev pub has_sub : Subscription → Subscribed → Bool
  has_sub subscription s = subscription_eq s.sub subscription

  unfoldable pub edit_subscription :
      HeapSessionManager
      → Subscription
      → HeapSessionManager × Result api.SubscriptionError (Unit {0})
  edit_subscription self subscription = elim (position (has_sub subscription) self.subscriptions) [
    | some pos ↦ (
      record { subscriptions = set self.subscriptions pos (new_subscription subscription) },
      ok tt,
    )
    | none ↦ (self, err api.subscription_does_not_exist)
  ]

  unfoldable pub subscribe :
      HeapSessionManager
      → Subscription
      → HeapSessionManager × Result api.SubscriptionError (Unit {0})
  subscribe self subscription =
      if any (has_sub subscription) self.subscriptions
      then (self, err api.subscription_exists)
      else (
        record { subscriptions = self.subscriptions ++ (new_subscription subscription ∷ []) },
        ok tt,
      )

  unfoldable pub unsubscribe :
      HeapSessionManager
      → Subscription
      → HeapSessionManager × Result api.SubscriptionError (Unit {0})
  unsubscribe self subscription = elim (position (has_sub subscription) self.subscriptions) [
    | some pos ↦ (record { subscriptions = remove_at self.subscriptions pos }, ok tt)
    | none ↦ (self, err api.subscription_does_not_exist)
  ]

  -- `iter_mut().find(…)`, and the update of what it finds.
  unfoldable pub ingest_first :
      List Subscribed → api.Frame → List Subscribed × Result api.SessionError (Option api.Transfer)
  ingest_first [] frame = ([], ok none)
  ingest_first (s ∷ rest) frame =
      let (rest', later) = ingest_first rest frame in
      let (s', now) = update s frame in
      if api.matches_sub s.sub frame then (s' ∷ rest, now) else (s ∷ rest', later)

  unfoldable pub ingest :
      HeapSessionManager
      → api.Frame
      → HeapSessionManager × Result api.SessionError (Option api.Transfer)
  ingest self frame =
      let (subscriptions, result) = ingest_first self.subscriptions frame in
      (record { subscriptions = subscriptions }, result)

  -- The body of the inner loop of `update_sessions`.
  unfoldable pub refresh : {E : Type 0} → Subscription → clock.Instant → Session → Result E Session
  refresh {E} sub timestamp session = do
    expired ← timestamp_expired {E = E} sub.timeout timestamp session.timestamp
    ok (if expired then new_session session.transfer_id (some sub.extent) else session)

  unfoldable pub refresh_all :
      {E : Type 0} → clock.Instant → List Subscribed → Result E (List Subscribed)
  refresh_all timestamp [] = ok []
  refresh_all {E} timestamp (s ∷ rest) = do
    sessions ← for_values (refresh {E = E} s.sub timestamp) s.sessions
    rest' ← refresh_all timestamp rest
    ok (record { sub = s.sub; sessions = sessions } ∷ rest')

  unfoldable pub update_sessions :
      {E : Type 0} → HeapSessionManager → clock.Instant → Result E HeapSessionManager
  update_sessions self timestamp = do
    subscriptions ← refresh_all timestamp self.subscriptions
    ok (record { subscriptions = subscriptions })
