-- ===== src/Session/SignOut.antt =====
-- A refresh that is under way when the user signs out.
use prompt_maker_studio.Base.{
  leb, ◌==◌, if◌then◌else◌, ==_iff, ==_refl, Bool-cases, none_ne_some, any, ℕ, ◌+◌, ◌<◌, ◌≡◌, refl,
  subst, ◌⊎◌, inl, inr, Bool, true, false, not, ◌&&◌, Option, none, some, List, [], ◌∷◌, arith,
}
use prompt_maker_studio.Session.{
  Session, Answer, renewed, refused, unreachable, Logout, after_refresh, clearing,
  record_session_expiry, remove_token, remove_id, refresh_session, take_answer, stop_waiting,
  refresh_answered, begin_logout, log_out, finish_logout, logout_answered, logged_in,
  is_signing_out, is_open, get_current_user, user_answered, ensure_session_validity,
  is_authenticated,
}
use prompt_maker_studio.Session.Renewal.{
  Step, Reach, renew, check, answer, sign_out, signed_out, sign_in, ask_user, user, drop_session,
  here, next,
}

abbrev pub is_in_flight : ℕ → Session → Bool
is_in_flight id s = any (λ i. i == id) s.in_flight

-- While the refresh is under way, the logout waits for it.
abbrev Waits : ℕ → Session → Type 0
Waits id s = (is_in_flight id s ≡ true → s.logout ≡ some (after_refresh id)) × (id < s.next_request)

any-remove_id :
    (id j : ℕ) (ids : List ℕ)
    → any (λ i. i == id) (remove_id j ids) ≡ true
    → (any (λ i. i == id) ids ≡ true) × (id == j ≡ false)
any-remove_id id j [] h = cc
any-remove_id id j (i ∷ ids) h = elim (Bool-cases (i == j)) [
  | inl cut ↦ let (a, b) = any-remove_id id j ids (rw cut at h) in (ground arith, b)
  | inr kept ↦ elim (Bool-cases (i == id)) [
    | inl found ↦ (ground arith, subst (λ n. n == j ≡ false) ((==_iff i id).0 found) kept)
    | inr later ↦
        let (a, b) = any-remove_id id j ids (rw later at rw kept at h) in (ground arith, b)
  ]
]

refresh_session-Waits : (id : ℕ) (s : Session) → Waits id s → Waits id (refresh_session s)
unfolding refresh_session
refresh_session-Waits id s (w, b) = by_promises s.logout s.refresh w
  where
    by_promises :
        (l : Option Logout) (r : Option ℕ)
        → (is_in_flight id s ≡ true → l ≡ some (after_refresh id))
        → Waits id (elim l as (λ x. Session) [
          | some l ↦ s
          | none ↦ elim r as (λ x. Session) [
            | some id ↦ s
            | none ↦ record s {
              refresh = some s.next_request;
              in_flight = s.next_request ∷ s.in_flight;
              next_request = s.next_request + 1;
            }
          ]
        ])
    by_promises (some l) r k = (w, b)
    by_promises none (some j) k = (w, b)
    by_promises none none k = (λ h. absurd (none_ne_some (k (ground arith))), omega arith)

take_answer-same :
    (a : Answer) (s : Session)
    → ((take_answer a s).in_flight ≡ s.in_flight)
      × ((take_answer a s).logout ≡ s.logout)
      × ((take_answer a s).next_request ≡ s.next_request)
unfolding take_answer record_session_expiry remove_token
take_answer-same (renewed e) s = ground arith
take_answer-same (refused status) s = ground arith
take_answer-same unreachable s = (refl, refl, refl)

answer-Waits :
    (id j : ℕ) (a : Answer) (s : Session) → Waits id s → Waits id (refresh_answered j a s)
unfolding refresh_answered
answer-Waits id j a s (w, b) =
    let (same_ids, same_logout, same_next) = take_answer-same a s in
    rw (same_ids, same_logout, same_next)
      (
        λ h.
            let (u, v) = any-remove_id id j s.in_flight h in rw (w u) (unfold stop_waiting in rw v),
        b,
      )

begin_logout-waiting :
    (id : ℕ) (l : Option Logout) (r : Option ℕ)
    → l ≡ some (after_refresh id)
    → begin_logout l r ≡ some (after_refresh id)
unfolding begin_logout
begin_logout-waiting id none r e = absurd (none_ne_some e)
begin_logout-waiting id (some l) r e = e

user-Waits : (id j status : ℕ) (s : Session) → Waits id s → Waits id (user_answered j status s)
unfolding user_answered remove_token
user-Waits id j status s w = elim (Bool-cases (leb 200 status && leb status 299)) [
  | inl good ↦ rw good w
  | inr bad ↦ elim (Bool-cases (status == 401)) [
    | inl unknown ↦ rw (bad, unknown) w
    | inr other ↦ rw (bad, other) w
  ]
]

get_current_user-Waits : (id : ℕ) (s : Session) → Waits id s → Waits id (get_current_user s)
unfolding get_current_user
get_current_user-Waits id s (w, b) = by_promise s.cached_user
  where
    by_promise :
        (c : Option ℕ)
        → Waits id (elim c as (λ x. Session) [
          | some id ↦ s
          | none ↦ record s { cached_user = some s.next_request; next_request = s.next_request + 1 }
        ])
    by_promise none = (w, omega arith)
    by_promise (some j) = (w, b)

check-Waits :
    (id now minimum : ℕ) (s : Session)
    → Waits id s
    → Waits id (ensure_session_validity now minimum s)
unfolding ensure_session_validity
check-Waits id now minimum s w = by_expiry s.expiry
  where
    by_expiry :
        (e : Option ℕ)
        → Waits id (elim e as (λ x. Session) [
          | none ↦ s
          | some at ↦ if leb at (now + minimum) then refresh_session s else s
        ])
    by_expiry none = w
    by_expiry (some at) = elim (Bool-cases (leb at (now + minimum))) [
      | inl soon ↦ rw soon (refresh_session-Waits id s w)
      | inr later ↦ rw later w
    ]

Step-Waits : (id : ℕ) (more : Bool) (s t : Session) → Step more s t → Waits id s → Waits id t
Step-Waits id _ s _ (renew _) w = refresh_session-Waits id s w
Step-Waits id _ s _ (check now minimum _) w = check-Waits id now minimum s w
Step-Waits id _ s _ (answer j a _ u) w = answer-Waits id j a s w
Step-Waits id _ s _ (sign_out _) (w, b) =
    unfold log_out in (λ h. begin_logout-waiting id s.logout s.refresh (w h), b)
Step-Waits id _ s _ (signed_out _) (w, b) =
    unfold logout_answered in (λ h. rw (w h) (unfold finish_logout in refl), b)
Step-Waits id _ s _ (sign_in expires_at _) w = unfold logged_in record_session_expiry in w
Step-Waits id _ s _ (ask_user _) w = get_current_user-Waits id s w
Step-Waits id _ s _ (user j status _) w = user-Waits id j status s w
Step-Waits id _ s _ (drop_session _) w = unfold remove_token in w

Reach-Waits :
    (id : ℕ) (s : Session) → Waits id s → (drops : ℕ) (t : Session) → Reach s drops t → Waits id t
Reach-Waits id s w _ _ here = w
Reach-Waits id s w _ _ (next r st) = Step-Waits id _ _ _ st (Reach-Waits id s w _ _ r)

log_out-Waits :
    (id : ℕ) (l : Option Logout) (r : Option ℕ)
    → l ≡ none
    → r ≡ some id
    → begin_logout l r ≡ some (after_refresh id)
unfolding begin_logout
log_out-Waits id l r e f = rw (e, f)

take_answer-expiry :
    (a : Answer) (s : Session)
    → is_signing_out s.logout ≡ true
    → ((take_answer a s).expiry ≡ s.expiry) ⊎ ((take_answer a s).expiry ≡ none)
unfolding take_answer remove_token
take_answer-expiry (renewed e) s h = inl (rw h)
take_answer-expiry (refused status) s h = elim (Bool-cases (status == 401)) [
  | inl unknown ↦ inr (rw unknown)
  | inr other ↦ inl (rw other)
]
take_answer-expiry unreachable s h = inl refl

not_opened :
    (now : ℕ) (o before : Option ℕ)
    → (o ≡ before) ⊎ (o ≡ none)
    → (is_open now o && not (is_open now before)) ≡ false
not_opened now o before (inl e) = rw e (ground arith)
not_opened now o before (inr e) = rw e

-- A refresh that is shared when the user signs out, with no logout under way and a number that was
-- given out, does not bring the session back: whatever happens
-- until its answer, signing in and out again included, the answer is not recorded, and only after
-- it the cookies are cleared.
pub late_refresh :
    (s t : Session) (id drops now : ℕ) (a : Answer)
    → s.logout ≡ none
    → s.refresh ≡ some id
    → id < s.next_request
    → Reach (log_out s) drops t
    → is_in_flight id t ≡ true
    → ((is_authenticated now (refresh_answered id a t) && not (is_authenticated now t)) ≡ false)
      × ((refresh_answered id a t).logout ≡ some clearing)
unfolding refresh_answered
late_refresh s t id drops now a e f b r h =
    let waits : Waits id (log_out s) =
      unfold log_out in (λ g. log_out-Waits id s.logout s.refresh e f, b) in
    let w = (Reach-Waits id (log_out s) waits drops t r).0 h in
    (
      unfold is_authenticated in
          not_opened now (take_answer a t).expiry t.expiry (take_answer-expiry a t (rw w)),
      rw ((take_answer-same a t).1, w) (unfold stop_waiting in rw (==_refl id)),
    )
