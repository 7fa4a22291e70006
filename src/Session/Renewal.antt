-- ===== src/Session/Renewal.antt =====
-- How many refresh requests can be under way, and what becomes of one when the user signs out.
use prompt_maker_studio.Base.{
  leb, ◌==◌, if◌then◌else◌, Bool-cases, length, any, length-filter-le, ℕ, ◌+◌, ◌≤◌, ◌<◌, ◌≡◌, refl,
  inl, inr, Bool, true, false, not, ◌&&◌, Option, none, some, List, [], ◌∷◌, arith,
}
use prompt_maker_studio.Session.{
  Session, Answer, renewed, refused, unreachable, Logout, record_session_expiry, remove_token,
  remove_id, refresh_session, take_answer, refresh_answered, log_out, logout_answered, logged_in,
  get_current_user, user_answered, ensure_session_validity,
}

abbrev pub count_set : Option ℕ → ℕ
count_set none = 0
count_set (some id) = 1

-- The transitions; the flag marks those that may drop the session, other than a refresh's answer.
pub data Step : Bool → Session → Session → Type 0 where
  renew : (s : Session) → Step false s (refresh_session s)
  check : (now minimum : ℕ) (s : Session) → Step false s (ensure_session_validity now minimum s)
  answer :
      (id : ℕ) (a : Answer) (s : Session)
      → any (λ i. i == id) s.in_flight ≡ true
      → Step false s (refresh_answered id a s)
  sign_out : (s : Session) → Step false s (log_out s)
  signed_out : (s : Session) → Step false s (logout_answered s)
  sign_in : (expires_at : Option ℕ) (s : Session) → Step false s (logged_in expires_at s)
  ask_user : (s : Session) → Step false s (get_current_user s)
  user : (id status : ℕ) (s : Session) → Step true s (user_answered id status s)
  drop_session : (s : Session) → Step true s (remove_token s)

pub data Reach (s : Session) : ℕ → Session → Type 0 where
  here : Reach s 0 s
  next :
      {drops : ℕ} {more : Bool} {t u : Session}
      → Reach s drops t
      → Step more t u
      → Reach s (if more then drops + 1 else drops) u

-- Each refresh under way is the shared one, or was left behind by a drop.
abbrev IsShared : ℕ → Session → Type 0
IsShared drops s = length s.in_flight ≤ drops + count_set s.refresh

length-remove_id :
    (id : ℕ) (ids : List ℕ) → any (λ i. i == id) ids ≡ true → length (remove_id id ids) < length ids
length-remove_id id [] h = cc
length-remove_id id (i ∷ ids) h = elim (Bool-cases (i == id)) [
  | inl this_one ↦ rw this_one (omega (arith, length-filter-le (λ x. not (x == id)) ids))
  | inr other ↦ rw other (omega (arith, length-remove_id id ids (rw other at h)))
]

refresh_session-IsShared :
    (drops : ℕ) (s : Session) → IsShared drops s → IsShared drops (refresh_session s)
unfolding refresh_session
refresh_session-IsShared drops s h = by_promises s.logout s.refresh h
  where
    by_promises :
        (l : Option Logout) (r : Option ℕ)
        → length s.in_flight ≤ drops + count_set r
        → IsShared drops (elim l as (λ x. Session) [
          | some l ↦ s
          | none ↦ elim r as (λ x. Session) [
            | some id ↦ s
            | none ↦ record s {
              refresh = some s.next_request;
              in_flight = s.next_request ∷ s.in_flight;
              next_request = s.next_request + 1;
            }
          ]
        ])
    by_promises (some l) r k = h
    by_promises none (some id) k = h
    by_promises none none k = omega arith

take_answer-in_flight : (a : Answer) (s : Session) → (take_answer a s).in_flight ≡ s.in_flight
unfolding take_answer record_session_expiry remove_token
take_answer-in_flight (renewed e) s = ground arith
take_answer-in_flight (refused status) s = ground arith
take_answer-in_flight unreachable s = refl

count_set_le : (r : Option ℕ) → count_set r ≤ 1
count_set_le none = omega arith
count_set_le (some id) = omega arith

answer-IsShared :
    (drops id : ℕ) (a : Answer) (s : Session)
    → any (λ i. i == id) s.in_flight ≡ true
    → IsShared drops s
    → IsShared drops (refresh_answered id a s)
unfolding refresh_answered
answer-IsShared drops id a s u h =
    rw (take_answer-in_flight a s)
      (omega (arith, length-remove_id id s.in_flight u, count_set_le s.refresh))

get_current_user-IsShared :
    (drops : ℕ) (s : Session) → IsShared drops s → IsShared drops (get_current_user s)
unfolding get_current_user
get_current_user-IsShared drops s h = by_promise s.cached_user
  where
    by_promise :
        (c : Option ℕ)
        → IsShared drops (elim c as (λ x. Session) [
          | some id ↦ s
          | none ↦ record s { cached_user = some s.next_request; next_request = s.next_request + 1 }
        ])
    by_promise none = h
    by_promise (some id) = h

-- A drop leaves at most one more refresh behind.
drop-IsShared : (drops : ℕ) (s : Session) → IsShared drops s → IsShared (drops + 1) (remove_token s)
unfolding remove_token
drop-IsShared drops s h = omega (arith, count_set_le s.refresh)

user-IsShared :
    (drops id status : ℕ) (s : Session)
    → IsShared drops s
    → IsShared (drops + 1) (user_answered id status s)
unfolding user_answered
user-IsShared drops id status s h = elim (Bool-cases (leb 200 status && leb status 299)) [
  | inl good ↦ rw good (omega arith)
  | inr bad ↦ elim (Bool-cases (status == 401)) [
    | inl unknown ↦ rw (bad, unknown) (drop-IsShared drops s h)
    | inr other ↦ rw (bad, other) (omega arith)
  ]
]

check-IsShared :
    (drops now minimum : ℕ) (s : Session)
    → IsShared drops s
    → IsShared drops (ensure_session_validity now minimum s)
unfolding ensure_session_validity
check-IsShared drops now minimum s h = by_expiry s.expiry
  where
    by_expiry :
        (e : Option ℕ)
        → IsShared drops (elim e as (λ x. Session) [
          | none ↦ s
          | some at ↦ if leb at (now + minimum) then refresh_session s else s
        ])
    by_expiry none = h
    by_expiry (some at) = elim (Bool-cases (leb at (now + minimum))) [
      | inl soon ↦ rw soon (refresh_session-IsShared drops s h)
      | inr later ↦ rw later h
    ]

Step-IsShared :
    (drops : ℕ) (more : Bool) (s t : Session)
    → Step more s t
    → IsShared drops s
    → IsShared (if more then drops + 1 else drops) t
Step-IsShared drops _ s _ (renew _) h = refresh_session-IsShared drops s h
Step-IsShared drops _ s _ (check now minimum _) h = check-IsShared drops now minimum s h
Step-IsShared drops _ s _ (answer id a _ u) h = answer-IsShared drops id a s u h
Step-IsShared drops _ s _ (sign_out _) h = unfold log_out in h
Step-IsShared drops _ s _ (signed_out _) h = unfold logout_answered in h
Step-IsShared drops _ s _ (sign_in expires_at _) h = unfold logged_in record_session_expiry in h
Step-IsShared drops _ s _ (ask_user _) h = get_current_user-IsShared drops s h
Step-IsShared drops _ s _ (user id status _) h = user-IsShared drops id status s h
Step-IsShared drops _ s _ (drop_session _) h = drop-IsShared drops s h

Reach-IsShared :
    (s : Session)
    → s.in_flight ≡ []
    → (drops : ℕ) (t : Session) → Reach s drops t
    → IsShared drops t
Reach-IsShared s e _ _ here = rw e (omega arith)
Reach-IsShared s e _ _ (next r st) = Step-IsShared _ _ _ _ st (Reach-IsShared s e _ _ r)

-- Callers share one refresh request: starting with none under way, at most one is under way at any
-- time, and one more for each time that the session was dropped other than by a refresh's answer.
pub refreshes_are_shared :
    (drops : ℕ) (s t : Session)
    → s.in_flight ≡ []
    → Reach s drops t
    → length t.in_flight ≤ drops + 1
refreshes_are_shared drops s t e r =
    omega (arith, Reach-IsShared s e drops t r, count_set_le t.refresh)
