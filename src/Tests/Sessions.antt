-- ===== src/Tests/Sessions.antt =====
-- Subscriptions and sessions on concrete frames: a frame matches by its port, and all its bytes are
-- payload.
use cyphal_rs.Base.{
  ℕ, ◌+◌, ◌≡◌, refl, Bool, true, false, some, List, [], ◌∷◌, length, ◌==◌, if◌then◌else◌, ok, inl,
  get_elem?, arith,
}
use cyphal_rs.HashMap.{get, insert, for_values}
use cyphal_rs.Manager.{timestamp_expired}
use cyphal_rs.Sessions.Api.{SessionApi}
use cyphal_rs.Sessions.Assembly.{updates, updates_lem}
use cyphal_rs.Sessions.Extent.{update_past_extent}
use cyphal_rs.Sessions.Heap
use cyphal_rs.Sessions.Heap.{Session, Subscribed, HeapSessionManager, new_session, new_subscription}
use cyphal_rs.Sessions.Reachable.{created, subscribed, ingested, Reachable-unsubscribe}
use cyphal_rs.Sessions.Routing.{Goes, ingest-Goes, update_sessions-get}
use cyphal_rs.Sessions.Same.{StdVecSessionManager-HeapSessionManager, agree, as_heap, map_ok}
use cyphal_rs.Sessions.StdVec
use cyphal_rs.Sessions.StdVec.{StdVecSessionManager}
use cyphal_rs.Sessions.Subscriptions.{Distinct, subs}
use cyphal_rs.Tests.Nodes.{clock}
use cyphal_rs.Types.{Subscription, message}

record TestFrame : Type 0 where
  port : ℕ
  time : ℕ
  tid : ℕ
  bytes : List ℕ
  first : Bool
  last : Bool

data SessionError : Type 0 where
  new_session_no_start timed_out bad_metadata : SessionError

data SubscriptionError : Type 0 where
  exists_already does_not_exist : SubscriptionError

-- The metadata counts the frames.
instance abbrev api : SessionApi clock
api = record {
  Frame = TestFrame;
  timestamp = λ f. f.time;
  source_node_id = λ f. some 12;
  transfer_id = λ f. f.tid;
  payload = λ f. f.bytes;
  start_of_transfer = λ f. f.first;
  end_of_transfer = λ f. f.last;
  Metadata = ℕ;
  new = 0;
  update = λ md f. (md + 1, some (length f.bytes));
  is_valid = λ md f. true;
  SessionError = SessionError;
  new_session_no_start = new_session_no_start;
  timeout = timed_out;
  bad_metadata = bad_metadata;
  SubscriptionError = SubscriptionError;
  subscription_exists = exists_already;
  subscription_does_not_exist = does_not_exist;
  matches_sub = λ s f. s.port_id == f.port;
  Transfer = ℕ × List ℕ;
  from_frame = λ f time bytes. (time, bytes);
}

-- At most five bytes, and a hundred milliseconds between the frames.
abbrev sub : ℕ → Subscription
sub port = record { transfer_kind = message; port_id = port; extent = 5; timeout = 100 }

abbrev head_frame : TestFrame
head_frame = record {
  port = 8;
  time = 1000;
  tid = 3;
  bytes = 1 ∷ 2 ∷ 3 ∷ [];
  first = true;
  last = false;
}

abbrev tail_frame : List ℕ → TestFrame
tail_frame bytes = record {
  port = 8;
  time = 1020;
  tid = 3;
  bytes = bytes;
  first = false;
  last = true;
}

abbrev two_subs : HeapSessionManager
two_subs = record { subscriptions = new_subscription (sub 7) ∷ new_subscription (sub 8) ∷ [] }

two_frames :
    (updates (new_subscription (sub 8)) (head_frame ∷ tail_frame (4 ∷ 5 ∷ []) ∷ [])).1
    ≡ ok (some (1000, 1 ∷ 2 ∷ 3 ∷ 4 ∷ 5 ∷ []))
unfolding updates Heap.update Heap.update_known Heap.update_session Heap.accept_frame
    Heap.accept_session Heap.copy_payload get insert timestamp_expired
two_frames = refl

-- A session that has taken `bytes`.
abbrev session : List ℕ → Session
session bytes = record { timestamp = some 1000; payload = bytes; transfer_id = 3; md = 1 }

abbrev holding : List ℕ → Subscribed
holding bytes = record { sub = sub 8; sessions = (12, session bytes) ∷ [] }

StdVecSessionManager-HeapSessionManager_example :
    let frame : TestFrame = tail_frame (4 ∷ 5 ∷ []) in
    let m : StdVecSessionManager = record {
      subscriptions = new_subscription (sub 7) ∷ holding (1 ∷ 2 ∷ 3 ∷ []) ∷ [];
    } in
    (agree (StdVec.subscribe m (sub 7)) ≡ Heap.subscribe (as_heap m) (sub 7))
    × (agree (StdVec.unsubscribe m (sub 7)) ≡ Heap.unsubscribe (as_heap m) (sub 7))
    × (agree (StdVec.edit_subscription m (sub 7)) ≡ Heap.edit_subscription (as_heap m) (sub 7))
    × (agree (StdVec.ingest m frame) ≡ Heap.ingest (as_heap m) frame)
    × (map_ok as_heap (StdVec.update_sessions {E = ⊥} m 1500)
        ≡ Heap.update_sessions {E = ⊥} (as_heap m) 1500)
StdVecSessionManager-HeapSessionManager_example =
    StdVecSessionManager-HeapSessionManager {E = ⊥}
      (record { subscriptions = new_subscription (sub 7) ∷ holding (1 ∷ 2 ∷ 3 ∷ []) ∷ [] }) (sub 7)
      (tail_frame (4 ∷ 5 ∷ [])) 1500

updates_lem_example :
    (updates (new_subscription (sub 8)) (head_frame ∷ tail_frame (4 ∷ 5 ∷ []) ∷ [])).1
    ≡ ok (some (1000, 1 ∷ 2 ∷ 3 ∷ 4 ∷ 5 ∷ []))
unfolding get timestamp_expired
updates_lem_example =
    updates_lem (new_subscription (sub 8)) 12 head_frame (tail_frame (4 ∷ 5 ∷ []) ∷ []) refl
      (inl refl)
      (
        record { source_eq = refl; transfer_id_eq = refl; answer_eq = refl; room = omega arith },
        refl,
        (
          record { source_eq = refl; transfer_id_eq = refl; answer_eq = refl; room = omega arith },
          refl,
          refl,
        ),
      )
      (refl, refl, tt) (omega arith)

update_past_extent_example :
    (session' : Session) × (get 12
        (Heap.update (holding (1 ∷ 2 ∷ 3 ∷ [])) (tail_frame (4 ∷ 5 ∷ 6 ∷ []))).0.sessions
      ≡ some session')
    × (session'.payload ≡ 1 ∷ 2 ∷ 3 ∷ 4 ∷ [])
    × (length session'.payload ≡ 4)
unfolding get timestamp_expired
update_past_extent_example =
    update_past_extent (holding (1 ∷ 2 ∷ 3 ∷ [])) 12 (session (1 ∷ 2 ∷ 3 ∷ [])) 1000
      (tail_frame (4 ∷ 5 ∷ 6 ∷ [])) refl refl
      (record { source_eq = refl; transfer_id_eq = refl; answer_eq = refl; room = omega arith })
      refl (omega arith) (omega arith)

-- A first frame of twelve bytes left seven in a session of at most five.
abbrev seven : List ℕ
seven = 1 ∷ 2 ∷ 3 ∷ 4 ∷ 5 ∷ 6 ∷ 7 ∷ []

Reachable-unsubscribe_example :
    Distinct (subs (Heap.ingest (Heap.subscribe Heap.new (sub 8)).0 head_frame).0.subscriptions)
    × (Heap.any
          (Heap.has_sub (sub 8))
          (Heap.unsubscribe
            (Heap.ingest (Heap.subscribe Heap.new (sub 8)).0 head_frame).0
            (sub 8)).0.subscriptions
        ≡ false)
Reachable-unsubscribe_example =
    Reachable-unsubscribe (sub 8) (ingested head_frame (subscribed (sub 8) created))

ingest-Goes_example :
    Goes two_subs.subscriptions head_frame
      ((Heap.ingest two_subs head_frame).0.subscriptions, (Heap.ingest two_subs head_frame).1)
ingest-Goes_example = ingest-Goes two_subs head_frame

abbrev held : HeapSessionManager
held = record { subscriptions = holding (1 ∷ 2 ∷ 3 ∷ []) ∷ [] }

abbrev dropped : HeapSessionManager
dropped = record {
  subscriptions = record { sub = sub 8; sessions = (12, new_session 3 (some 5)) ∷ [] } ∷ [];
}

update_sessions-get_example :
    (s' : Subscribed) × (expired : Bool) × (get_elem? dropped.subscriptions 0 ≡ some s')
    × (s'.sub ≡ sub 8)
    × (timestamp_expired {E = ⊥} 100 1500 (some 1000) ≡ ok expired)
    × (get 12 s'.sessions
        ≡ some (if expired then new_session 3 (some 5) else session (1 ∷ 2 ∷ 3 ∷ [])))
unfolding get timestamp_expired Heap.update_sessions Heap.refresh_all Heap.refresh for_values
update_sessions-get_example =
    update_sessions-get held dropped 1500 0 (holding (1 ∷ 2 ∷ 3 ∷ [])) 12 (session (1 ∷ 2 ∷ 3 ∷ []))
      refl refl refl
