-- ===== src/Sessions/Routing.antt =====
-- Which subscriptions and sessions of `HeapSessionManager` a frame or a timeout reaches,
-- cyphal/src/transfer/heap_manager.rs.
use mathlib.Core.Path.{subst}
use cyphal_rs.Base.{
  ℕ, ◌≡◌, refl, sym, zero, suc, ap, ◌∙◌, ◌⊎◌, Bool, true, false, Bool-cases, Option, none, some,
  inl, inr, List, [], ◌∷◌, ◌++◌, get_elem?, if◌then◌else◌, Result, ok, >>=-eq-ok,
}
use cyphal_rs.Clock.{Clock}
use cyphal_rs.HashMap.{get, for_values, get-for_values}
use cyphal_rs.Manager.{timestamp_expired}
use cyphal_rs.Sessions.Api.{SessionApi}
use cyphal_rs.Sessions.Heap.{
  Session, Subscribed, HeapSessionManager, new_session, any, update, ingest, ingest_first, refresh,
  refresh_all, update_sessions,
}

module _ ⦃clock : Clock⦄ ⦃api : SessionApi clock⦄ where
  -- Whether a frame is one for a subscription.
  abbrev pub takes : api.Frame → Subscribed → Bool
  takes f s = api.matches_sub s.sub f

  -- Where the frame goes: to none, or to the first of the subscriptions that take it.
  abbrev pub Goes :
      List Subscribed
      → api.Frame
      → List Subscribed × Result api.SessionError (Option api.Transfer)
      → Type 0
  Goes xs f out =
      ((any (takes f) xs ≡ false) × (out ≡ (xs, ok none)))
      ⊎ ((before : List Subscribed) × (s : Subscribed) × (after : List Subscribed) × (xs
            ≡ before ++ (s ∷ after))
          × (any (takes f) before ≡ false)
          × (takes f s ≡ true)
          × (out ≡ (before ++ ((update s f).0 ∷ after), (update s f).1)))

  Goes-later :
      (x : Subscribed) (xs : List Subscribed) (f : api.Frame)
      (out : List Subscribed × Result api.SessionError (Option api.Transfer))
      → takes f x ≡ false
      → Goes xs f out
      → Goes (x ∷ xs) f (x ∷ out.0, out.1)
  Goes-later x xs f out other (inl (nowhere, e)) = inl (rw (other, nowhere) refl, rw e refl)
  Goes-later x xs f out other (inr (before, s, after, split, apart, here, e)) =
      inr (x ∷ before, s, after, ap (◌∷◌ x) split, rw (other, apart) refl, here, rw e refl)

  ingest_first-Goes : (xs : List Subscribed) (f : api.Frame) → Goes xs f (ingest_first xs f)
  unfolding ingest_first
  ingest_first-Goes [] f = inl (refl, refl)
  ingest_first-Goes (x ∷ xs) f = elim (Bool-cases (takes f x)) [
    | inl e ↦ inr ([], x, xs, refl, refl, e, rw e refl)
    | inr e ↦
        let passed : ingest_first (x ∷ xs) f ≡ (x ∷ (ingest_first xs f).0, (ingest_first xs f).1) =
          rw (ingest_first, e) refl in
        subst (Goes (x ∷ xs) f) (sym passed) (Goes-later x xs f _ e (ingest_first-Goes xs f))
  ]

  -- `ingest` leaves the state and answers nothing when no subscription takes the frame. Otherwise
  -- it updates the first subscription that does, leaves all others, before it and behind it, as they
  -- are, and answers what the update answers.
  pub ingest-Goes :
      (m : HeapSessionManager) (f : api.Frame)
      → Goes m.subscriptions f ((ingest m f).0.subscriptions, (ingest m f).1)
  unfolding ingest
  ingest-Goes m f = ingest_first-Goes m.subscriptions f

  refresh_all-get :
      {E : Type 0} (now : clock.Instant) (xs ys : List Subscribed) (i : ℕ) (s : Subscribed)
      → refresh_all {E = E} now xs ≡ ok ys
      → get_elem? xs i ≡ some s
      → (sessions : List (ℕ × Session)) × (get_elem? ys i
          ≡ some (record { sub = s.sub; sessions = sessions }))
        × (for_values (refresh {E = E} s.sub now) s.sessions ≡ ok sessions)
  unfolding refresh_all
  refresh_all-get now [] ys i s e found = cc
  refresh_all-get {E} now (x ∷ xs) ys zero s e found =
      let (m, sessions, rest) = >>=-eq-ok (for_values (refresh {E = E} x.sub now) x.sessions) _ e in
      let (xs', more, made) = >>=-eq-ok (refresh_all now xs) _ rest in
      let same : record { sub = x.sub; sessions = m } ∷ xs' ≡ ys = cc in
      let here : x ≡ s = cc in rw (← same, ← here) (m, refl, sessions)
  refresh_all-get {E} now (x ∷ xs) ys (suc i) s e found =
      let (m, sessions, rest) = >>=-eq-ok (for_values (refresh {E = E} x.sub now) x.sessions) _ e in
      let (xs', more, made) = >>=-eq-ok (refresh_all now xs) _ rest in
      let same : record { sub = x.sub; sessions = m } ∷ xs' ≡ ys = cc in
      rw (← same) (refresh_all-get now xs xs' i s more found)

  -- When the timeouts of `update_sessions` are over, a session of the subscription at place `i` is
  -- as it was, or, exactly when it was expired, a new one for the transfer id that it had. The
  -- subscription is still to the same.
  pub update_sessions-get :
      {E : Type 0} (m m' : HeapSessionManager) (now : clock.Instant) (i : ℕ) (s : Subscribed)
      (id : ℕ) (session : Session)
      → update_sessions {E = E} m now ≡ ok m'
      → get_elem? m.subscriptions i ≡ some s
      → get id s.sessions ≡ some session
      → (s' : Subscribed) × (expired : Bool) × (get_elem? m'.subscriptions i ≡ some s')
        × (s'.sub ≡ s.sub)
        × (timestamp_expired {E = E} s.sub.timeout now session.timestamp ≡ ok expired)
        × (get id s'.sessions
            ≡ some
                (if expired then new_session session.transfer_id (some s.sub.extent) else session))
  unfolding update_sessions refresh
  update_sessions-get {E} m m' now i s id session e found there =
      let (xs, done, made) = >>=-eq-ok (refresh_all now m.subscriptions) _ e in
      let same : record { subscriptions = xs } ≡ m' = cc in
      let (sessions, at, each) = refresh_all-get now m.subscriptions xs i s done found in
      let (after, ran, kept) =
        get-for_values (refresh {E = E} s.sub now) s.sessions sessions id session each there in
      let (expired, tested, left) =
        >>=-eq-ok (timestamp_expired {E = E} s.sub.timeout now session.timestamp) _ ran in
      let fresh : (if expired then new_session session.transfer_id (some s.sub.extent) else session)
          ≡ after =
        cc in
      rw (← same) (
        record { sub = s.sub; sessions = sessions },
        expired,
        at,
        refl,
        tested,
        (kept ∙ ap some (sym fresh)),
      )
