-- ===== src/Sessions/Subscriptions.antt =====
-- The list of subscriptions of `HeapSessionManager`, cyphal/src/transfer/heap_manager.rs.
use cyphal_rs.Base.{
  ℕ, zero, suc, ◌≡◌, refl, sym, ap, ◌∙◌, Bool, true, false, Bool-cases, none, some, Option-cases,
  inl, inr, List, [], ◌∷◌, ◌++◌, length, if◌then◌else◌, set, ok, >>=-eq-ok, arith,
}
use cyphal_rs.Clock.{Clock}
use cyphal_rs.HashMap.{get, for_values}
use cyphal_rs.Sessions.Api.{SessionApi}
use cyphal_rs.Sessions.Heap.{
  Session, Subscribed, new_subscription, has_sub, store_session, reset_to_new_transfer_id,
  new_session, any, position, remove_at, copy_payload, accept_session, accept_frame, update_session,
  update_known, update, ingest_first, refresh, refresh_all,
}
use cyphal_rs.Types.{NodeId, Subscription, subscription_eq}

-- No two subscriptions of the list are equal.
abbrev pub member : Subscription → List Subscription → Bool
member s [] = false
member s (x ∷ xs) = if subscription_eq x s then true else member s xs

abbrev pub Distinct : List Subscription → Type 0
Distinct [] = Unit {0}
Distinct (x ∷ xs) = (member x xs ≡ false) × Distinct xs

-- `==` on subscriptions is an equivalence.
subscription_eq_comm : (a b : Subscription) → subscription_eq a b ≡ subscription_eq b a
subscription_eq_comm a b = ground arith

subscription_eq_refl : (a : Subscription) → subscription_eq a a ≡ true
subscription_eq_refl a = ground arith

subscription_eq_left :
    (a b c : Subscription) → subscription_eq a b ≡ true → subscription_eq a c ≡ subscription_eq b c
subscription_eq_left a b c e = ground arith

subscription_eq_right :
    (a b c : Subscription) → subscription_eq a b ≡ true → subscription_eq c b ≡ subscription_eq c a
subscription_eq_right a b c e = ground arith

-- Equal subscriptions are members of the same lists.
member-equal :
    (a b : Subscription) (xs : List Subscription)
    → subscription_eq a b ≡ true
    → member b xs ≡ member a xs
member-equal a b [] e = refl
member-equal a b (x ∷ xs) e = rw (subscription_eq_right a b x e, member-equal a b xs e) refl

member-append :
    (s t : Subscription) (xs : List Subscription)
    → member s xs ≡ false
    → subscription_eq t s ≡ false
    → member s (xs ++ (t ∷ [])) ≡ false
member-append s t [] absent differ = rw differ
member-append s t (x ∷ xs) absent differ = ground (arith, member-append s t xs)

pub Distinct-append :
    (t : Subscription) (xs : List Subscription)
    → Distinct xs
    → member t xs ≡ false
    → Distinct (xs ++ (t ∷ []))
Distinct-append t [] distinct absent = (refl, tt)
Distinct-append t (x ∷ xs) (apart, distinct) absent =
    let differ : subscription_eq t x ≡ false = ground (arith, subscription_eq_comm t x) in
    (member-append x t xs apart differ, Distinct-append t xs distinct (ground arith))

member-remove_at :
    (s : Subscription) (xs : List Subscription) (i : ℕ)
    → member s xs ≡ false
    → member s (remove_at xs i) ≡ false
member-remove_at s [] i absent = refl
member-remove_at s (x ∷ xs) zero absent = ground arith
member-remove_at s (x ∷ xs) (suc i) absent = ground (arith, member-remove_at s xs i)

pub Distinct-remove_at : (xs : List Subscription) (i : ℕ) → Distinct xs → Distinct (remove_at xs i)
Distinct-remove_at [] i d = tt
Distinct-remove_at (x ∷ xs) zero (apart, d) = d
Distinct-remove_at (x ∷ xs) (suc i) (apart, d) =
    (member-remove_at x xs i apart, Distinct-remove_at xs i d)

module _ ⦃clock : Clock⦄ ⦃api : SessionApi clock⦄ where
  -- What is subscribed to.
  abbrev pub subs : List Subscribed → List Subscription
  subs [] = []
  subs (s ∷ rest) = s.sub ∷ subs rest

  pub subs-append :
      (xs : List Subscribed) (s : Subscribed) → subs (xs ++ (s ∷ [])) ≡ subs xs ++ (s.sub ∷ [])
  subs-append [] s = refl
  subs-append (x ∷ xs) s = ap (◌∷◌ x.sub) (subs-append xs s)

  pub subs-remove_at :
      (xs : List Subscribed) (i : ℕ) → subs (remove_at xs i) ≡ remove_at (subs xs) i
  subs-remove_at [] i = refl
  subs-remove_at (x ∷ xs) zero = refl
  subs-remove_at (x ∷ xs) (suc i) = ap (◌∷◌ x.sub) (subs-remove_at xs i)

  pub any-has_sub :
      (s : Subscription) (xs : List Subscribed) → any (has_sub s) xs ≡ member s (subs xs)
  any-has_sub s [] = refl
  any-has_sub s (x ∷ xs) = rw (any-has_sub s xs) refl

  pub position-here :
      (t : Subscription) (x : Subscribed) (xs : List Subscribed) (i : ℕ)
      → subscription_eq x.sub t ≡ true
      → position (has_sub t) (x ∷ xs) ≡ some i
      → i ≡ 0
  position-here t x xs i e found = ground arith

  pub position-later :
      (t : Subscription) (x : Subscribed) (xs : List Subscribed) (i : ℕ)
      → subscription_eq x.sub t ≡ false
      → position (has_sub t) (x ∷ xs) ≡ some i
      → (j : ℕ) × (i ≡ suc j) × (position (has_sub t) xs ≡ some j)
  position-later t x xs i e found = elim (Option-cases (position (has_sub t) xs)) [
    | inl absent ↦ absurd (ground arith)
    | inr (j, there) ↦ (j, ground arith, there)
  ]

  -- Putting an equal subscription in the place of the first one keeps what is in the list.
  pub member-set :
      (s t : Subscription) (xs : List Subscribed) (i : ℕ)
      → position (has_sub t) xs ≡ some i
      → member s (subs (set xs i (new_subscription t))) ≡ member s (subs xs)
  member-set s t [] i found = cc
  member-set s t (x ∷ xs) i found = elim (Bool-cases (subscription_eq x.sub t)) [
    | inl e ↦
        let here = position-here t x xs i e found in
        let same = subscription_eq_left x.sub t s e in rw (here, same) refl
    | inr e ↦
        let (j, next, there) = position-later t x xs i e found in
        let later = member-set s t xs j there in rw (next, later) refl
  ]

  pub Distinct-set :
      (t : Subscription) (xs : List Subscribed) (i : ℕ)
      → position (has_sub t) xs ≡ some i
      → Distinct (subs xs)
      → Distinct (subs (set xs i (new_subscription t)))
  Distinct-set t [] i found d = tt
  Distinct-set t (x ∷ xs) i found (apart, d) = elim (Bool-cases (subscription_eq x.sub t)) [
    | inl e ↦
        let here = position-here t x xs i e found in
        rw here ((member-equal x.sub t (subs xs) e ∙ apart), d)
    | inr e ↦
        let (j, next, there) = position-later t x xs i e found in
        rw next ((member-set x.sub t xs j there ∙ apart), Distinct-set t xs j there d)
  ]

  pub position-any :
      (s : Subscription) (xs : List Subscribed)
      → position (has_sub s) xs ≡ none
      → any (has_sub s) xs ≡ false
  position-any s [] e = refl
  position-any s (x ∷ xs) e = elim (Option-cases (position (has_sub s) xs)) [
    | inl absent ↦ let rest = position-any s xs absent in ground arith
    | inr (j, there) ↦ absurd (ground arith)
  ]

  -- The first of equal subscriptions is the only one.
  pub member-removed :
      (s : Subscription) (xs : List Subscribed) (i : ℕ)
      → position (has_sub s) xs ≡ some i
      → Distinct (subs xs)
      → member s (subs (remove_at xs i)) ≡ false
  member-removed s [] i found d = refl
  member-removed s (x ∷ xs) i found (apart, d) = elim (Bool-cases (subscription_eq x.sub s)) [
    | inl e ↦
        let here = position-here s x xs i e found in
        rw here (member-equal x.sub s (subs xs) e ∙ apart)
    | inr e ↦
        let (j, next, there) = position-later s x xs i e found in
        rw (next, e) (member-removed s xs j there d)
  ]

  pub position-append :
      (s : Subscription) (xs : List Subscribed)
      → any (has_sub s) xs ≡ false
      → position (has_sub s) (xs ++ (new_subscription s ∷ [])) ≡ some (length xs)
  position-append s [] absent = rw (subscription_eq_refl s) refl
  position-append s (x ∷ xs) absent =
      let rest = position-append s xs (ground arith) in
      let other : subscription_eq x.sub s ≡ false = ground arith in rw (other, rest) refl

  pub remove_at-append :
      (xs : List Subscribed) (x : Subscribed) → remove_at (xs ++ (x ∷ [])) (length xs) ≡ xs
  remove_at-append [] x = refl
  remove_at-append (y ∷ xs) x = ap (◌∷◌ y) (remove_at-append xs x)

  pub any-append :
      (s : Subscription) (xs : List Subscribed)
      → any (has_sub s) (xs ++ (new_subscription s ∷ [])) ≡ true
  any-append s [] = rw (subscription_eq_refl s) refl
  any-append s (x ∷ xs) = rw (any-append s xs) (ground arith)

  copy_payload-sub :
      (self : Subscribed) (id : NodeId) (s : Session) (f : api.Frame) (n : ℕ)
      → (copy_payload self id s f n).0.sub ≡ self.sub
  unfolding copy_payload
  copy_payload-sub self id s f n = ground arith

  accept_session-sub :
      (self : Subscribed) (id : NodeId) (s : Session) (f : api.Frame)
      → (accept_session self id s f).0.sub ≡ self.sub
  unfolding accept_session
  accept_session-sub self id s f = elim (Bool-cases (api.start_of_transfer f)) [
    | inl e ↦ elim (Option-cases ((api.update s.md f).1)) [
      | inl none_taken ↦ ground arith
      | inr (n, n_taken) ↦ rw (accept_session, e, n_taken) (copy_payload-sub self id _ f n)
    ]
    | inr e ↦ elim (Option-cases ((api.update s.md f).1)) [
      | inl none_taken ↦ ground arith
      | inr (n, n_taken) ↦ rw (accept_session, e, n_taken) (copy_payload-sub self id _ f n)
    ]
  ]

  accept_frame-sub :
      (self : Subscribed) (id : NodeId) (f : api.Frame) → (accept_frame self id f).0.sub ≡ self.sub
  unfolding accept_frame
  accept_frame-sub self id f = elim (Option-cases (get id self.sessions)) [
    | inl e ↦ rw (accept_frame, e) refl
    | inr (s, e) ↦ rw (accept_frame, e) (accept_session-sub self id s f)
  ]

  update_session-sub :
      (self : Subscribed) (id : NodeId) (s : Session) (f : api.Frame)
      → (update_session self id s f).0.sub ≡ self.sub
  unfolding update_session
  update_session-sub self id s f =
      let other =
        accept_frame-sub (store_session self id (reset_to_new_transfer_id s (api.transfer_id f))) id
          f in
      let same = accept_frame-sub self id f in ground arith

  update_known-sub :
      (self : Subscribed) (id : NodeId) (f : api.Frame) → (update_known self id f).0.sub ≡ self.sub
  unfolding update_known
  update_known-sub self id f = elim (Option-cases (get id self.sessions)) [
    | inl e ↦
        let fresh = new_session (api.transfer_id f) (some self.sub.extent) in
        let started = accept_frame-sub (store_session self id fresh) id f in ground arith
    | inr (s, e) ↦ rw (update_known, e) (update_session-sub self id s f)
  ]

  -- An update leaves what the subscription is to.
  update-sub : (self : Subscribed) (f : api.Frame) → (update self f).0.sub ≡ self.sub
  unfolding update
  update-sub self f = elim (Option-cases (api.source_node_id f)) [
    | inl e ↦ rw (update, e) refl
    | inr (id, e) ↦ rw (update, e) (update_known-sub self id f)
  ]

  pub ingest_first-subs :
      (xs : List Subscribed) (f : api.Frame) → subs (ingest_first xs f).0 ≡ subs xs
  unfolding ingest_first
  ingest_first-subs [] f = refl
  ingest_first-subs (x ∷ xs) f =
      let here = update-sub x f in
      let later = ingest_first-subs xs f in
      elim (Bool-cases (api.matches_sub x.sub f)) [
        | inl e ↦ rw (e, here) refl
        | inr e ↦ rw (e, later) refl
      ]

  pub refresh_all-subs :
      {E : Type 0} (timestamp : clock.Instant) (xs ys : List Subscribed)
      → refresh_all {E = E} timestamp xs ≡ ok ys
      → subs ys ≡ subs xs
  unfolding refresh_all
  refresh_all-subs timestamp [] ys e = let same : [] ≡ ys = cc in rw (sym same) refl
  refresh_all-subs timestamp (x ∷ xs) ys e =
      let (m, sessions, rest) = >>=-eq-ok (for_values (refresh x.sub timestamp) x.sessions) _ e in
      let (xs', more, made) = >>=-eq-ok (refresh_all timestamp xs) _ rest in
      let same : record { sub = x.sub; sessions = m } ∷ xs' ≡ ys = cc in
      rw (sym same) (ap (◌∷◌ x.sub) (refresh_all-subs timestamp xs xs' more))
