-- ===== src/Sessions/Reachable.antt =====
-- The states that a user of `HeapSessionManager` can reach, cyphal/src/transfer/heap_manager.rs.
use cyphal_rs.Base.{
  ◌≡◌, refl, [], ◌∷◌, ◌++◌, false, err, Bool-cases, Option-cases, inl, inr, ok, >>=-eq-ok,
}
use cyphal_rs.Clock.{Clock}
use cyphal_rs.Sessions.Api.{SessionApi}
use cyphal_rs.Sessions.Heap.{
  HeapSessionManager, new, subscribe, unsubscribe, edit_subscription, ingest, refresh_all,
  update_sessions, has_sub, any, position, new_subscription,
}
use cyphal_rs.Sessions.Subscriptions.{
  Distinct, subs, subs-append, member-removed, position-any, position-append, remove_at-append,
  any-append, subs-remove_at, any-has_sub, Distinct-append, Distinct-remove_at, Distinct-set,
  ingest_first-subs, refresh_all-subs,
}
use cyphal_rs.Types.{Subscription}

module _ ⦃clock : Clock⦄ ⦃api : SessionApi clock⦄ where
  -- A manager after any sequence of operations.
  pub data Reachable : HeapSessionManager → Type 1 where
    created : Reachable new
    subscribed :
        {m : HeapSessionManager} (s : Subscription) → Reachable m → Reachable (subscribe m s).0
    unsubscribed :
        {m : HeapSessionManager} (s : Subscription) → Reachable m → Reachable (unsubscribe m s).0
    edited :
        {m : HeapSessionManager} (s : Subscription)
        → Reachable m
        → Reachable (edit_subscription m s).0
    ingested : {m : HeapSessionManager} (f : api.Frame) → Reachable m → Reachable (ingest m f).0
    updated :
        {m m' : HeapSessionManager} (now : clock.Instant)
        → update_sessions {E = ⊥} m now ≡ ok m'
        → Reachable m
        → Reachable m'

  subscribe-Distinct :
      (m : HeapSessionManager) (s : Subscription)
      → Distinct (subs m.subscriptions)
      → Distinct (subs (subscribe m s).0.subscriptions)
  unfolding subscribe
  subscribe-Distinct m s d = elim (Bool-cases (any (has_sub s) m.subscriptions)) [
    | inl e ↦ rw (subscribe, e) d
    | inr e ↦
        rw (subscribe, e, subs-append m.subscriptions (new_subscription s))
          (Distinct-append s _ d (rw (← any-has_sub s m.subscriptions) e))
  ]

  unsubscribe-Distinct :
      (m : HeapSessionManager) (s : Subscription)
      → Distinct (subs m.subscriptions)
      → Distinct (subs (unsubscribe m s).0.subscriptions)
  unfolding unsubscribe
  unsubscribe-Distinct m s d = elim (Option-cases (position (has_sub s) m.subscriptions)) [
    | inl e ↦ rw (unsubscribe, e) d
    | inr (i, e) ↦ rw (unsubscribe, e, subs-remove_at m.subscriptions i) (Distinct-remove_at _ i d)
  ]

  edit_subscription-Distinct :
      (m : HeapSessionManager) (s : Subscription)
      → Distinct (subs m.subscriptions)
      → Distinct (subs (edit_subscription m s).0.subscriptions)
  unfolding edit_subscription
  edit_subscription-Distinct m s d = elim (Option-cases (position (has_sub s) m.subscriptions)) [
    | inl e ↦ rw (edit_subscription, e) d
    | inr (i, e) ↦ rw (edit_subscription, e) (Distinct-set s m.subscriptions i e d)
  ]

  update_sessions-subs :
      (m m' : HeapSessionManager) (now : clock.Instant)
      → update_sessions {E = ⊥} m now ≡ ok m'
      → subs m'.subscriptions ≡ subs m.subscriptions
  unfolding update_sessions
  update_sessions-subs m m' now e =
      let (xs, done, made) = >>=-eq-ok (refresh_all now m.subscriptions) _ e in
      let same : record { subscriptions = xs } ≡ m' = cc in
      rw (← same) (refresh_all-subs now m.subscriptions xs done)

  pub Reachable-Distinct : {m : HeapSessionManager} → Reachable m → Distinct (subs m.subscriptions)
  unfolding ingest
  Reachable-Distinct created = tt
  Reachable-Distinct (subscribed {m} s r) = subscribe-Distinct m s (Reachable-Distinct r)
  Reachable-Distinct (unsubscribed {m} s r) = unsubscribe-Distinct m s (Reachable-Distinct r)
  Reachable-Distinct (edited {m} s r) = edit_subscription-Distinct m s (Reachable-Distinct r)
  Reachable-Distinct (ingested {m} f r) =
      rw (ingest_first-subs m.subscriptions f) (Reachable-Distinct r)
  Reachable-Distinct (updated {m} {m'} now e r) =
      rw (update_sessions-subs m m' now e) (Reachable-Distinct r)

  -- In every state that the operations reach, no two subscriptions are equal, and after
  -- `unsubscribe`, whether it found the subscription or not, no equal one is left.
  pub Reachable-unsubscribe :
      {m : HeapSessionManager} (s : Subscription)
      → Reachable m
      → Distinct (subs m.subscriptions)
        × (any (has_sub s) (unsubscribe m s).0.subscriptions ≡ false)
  unfolding unsubscribe
  Reachable-unsubscribe {m} s r =
      let distinct = Reachable-Distinct r in
      (
        distinct,
        elim (Option-cases (position (has_sub s) m.subscriptions)) [
          | inl e ↦ rw (unsubscribe, e) (position-any s m.subscriptions e)
          | inr (i, e) ↦
              rw (unsubscribe, e, any-has_sub) (member-removed s m.subscriptions i e distinct)
        ],
      )

  subscribe_new :
      (m : HeapSessionManager) (s : Subscription)
      → any (has_sub s) m.subscriptions ≡ false
      → subscribe m s
        ≡ (record { subscriptions = m.subscriptions ++ (new_subscription s ∷ []) }, ok tt)
  unfolding subscribe
  subscribe_new m s absent = rw (subscribe, absent) refl

  -- A new subscription is taken, and `unsubscribe` then brings back the state before it; a
  -- second `subscribe` is refused, and leaves the state.
  unsubscribe-subscribe :
      (m : HeapSessionManager) (s : Subscription)
      → any (has_sub s) m.subscriptions ≡ false
      → (subscribe m s).1 ≡ ok tt
        × (unsubscribe (subscribe m s).0 s ≡ (m, ok tt))
        × (subscribe (subscribe m s).0 s ≡ ((subscribe m s).0, err api.subscription_exists))
  unfolding subscribe unsubscribe
  unsubscribe-subscribe m s absent =
      let last = position-append s m.subscriptions absent in
      let gone = remove_at-append m.subscriptions (new_subscription s) in
      let there = any-append s m.subscriptions in
      let taken = subscribe_new m s absent in
      let left : unsubscribe
            (record { subscriptions = m.subscriptions ++ (new_subscription s ∷ []) }) s
          ≡ (m, ok tt) =
        rw (unsubscribe, last, gone) refl in
      (rw taken refl, rw taken left, rw (taken, subscribe, there) refl)
