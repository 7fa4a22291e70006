-- ===== src/Session.antt =====
-- lib/auth.ts (under frontend/src): `AuthService`, what the browser remembers of a session, and its
-- requests for renewing and ending it. A request and its answer are two transitions; several
-- callers of `refreshSession` share one request.
pub mod Storage
pub mod Renewal
pub mod SignOut
pub mod Hook
mod Examples
use prompt_maker_studio.Base.{
  ltb, leb, ◌==◌, if◌then◌else◌, ==_iff, ==_refl, Bool-cases, Option-cases, both, either,
  eq_of_some, same, none_ne_some, false_ne_true, true_of_not, false_of_not, length, get_elem?, take,
  drop, filter, any, all, find?, All, concat, slice, drop-drop, length-append, take-append-drop,
  slice-append-drop, length-take, length-drop, take-append-length, drop-append-length,
  filter-append, length-filter-le, drop-all, slice-empty, concat-append, length-reverse, Text, text,
  text_eq, text_eq_refl, eq_of_text_eq, text_eq_iff, includes, is_space, trim_start, trim_end, trim,
  is_empty, join, take_while, drop_while, strip, length-strip, strip-append, length-drop_while,
  length-trim_start, push_new, push_all, set_of, first_uses, IsDistinct, includes-append,
  filter-filter, push_all-first_uses, set_of-first_uses, includes-first_uses, first_uses-IsDistinct,
  IsDistinct-snoc, push_new-cons, ℕ, zero, suc, ◌+◌, ◌-◌, ◌*◌, ◌/◌, ◌%◌, ◌≤◌, ◌<◌, max, min, ◌≡◌,
  refl, sym, ap, ap₂, ◌∙◌, subst, fun_ext, ◌≢◌, ◌↔◌, ◌⊎◌, inl, inr, Bool, true, false, not, ◌&&◌,
  ◌||◌, Option, none, some, some-injective, List, [], ◌∷◌, ◌++◌, map, append-nil, append_assoc,
  map-append, arith,
}
use Storage.{Store, clear_user_content}

-- `SESSION_EXPIRY_KEY`: why the sign-in screen is shown, and where to go afterwards.
pub data Notice : Type 0 where
  expired : (return_to : Text) → Notice
  told : (reason : Text) → Notice

-- `logoutPromise`: it waits for a refresh that is under way, and then has the cookies cleared.
pub data Logout : Type 0 where
  after_refresh : ℕ → Logout
  clearing : Logout

pub record Session : Type 0 where
  -- `CLIENT_SESSION_EXPIRY_KEY`, in milliseconds.
  pub expiry : Option ℕ
  pub notice : Option Notice
  pub local : Store
  -- `cachedUserPromise`, by the number of its request.
  pub cached_user : Option ℕ
  -- `refreshPromise`, by the number of its request.
  pub refresh : Option ℕ
  pub logout : Option Logout
  -- The refresh requests that have not been answered.
  pub in_flight : List ℕ
  pub next_request : ℕ
  -- The address shown, for `returnTo`.
  pub address : Text

-- What the server answers to a refresh; an unreadable time is none.
pub data Answer : Type 0 where
  renewed : (expires_at : Option ℕ) → Answer
  refused : (status : ℕ) → Answer
  unreachable : Answer

-- `recordSessionExpiry`, with the time parsed.
unfoldable pub record_session_expiry : Option ℕ → Session → Session
record_session_expiry expires_at s = record s { cached_user = none; expiry = expires_at }

unfoldable pub remove_token : Session → Session
remove_token s = record s {
  cached_user = none;
  refresh = none;
  notice = some (expired s.address);
  expiry = none;
}

abbrev pub remove_id : ℕ → List ℕ → List ℕ
remove_id id = filter (λ i. not (i == id))

-- `refreshSession`: it throws while the user signs out, joins a request, or starts one.
unfoldable pub refresh_session : Session → Session
refresh_session s = elim s.logout [
  | some l ↦ s
  | none ↦ elim s.refresh [
    | some id ↦ s
    | none ↦ record s {
      refresh = some s.next_request;
      in_flight = s.next_request ∷ s.in_flight;
      next_request = s.next_request + 1;
    }
  ]
]

abbrev pub is_signing_out : Option Logout → Bool
is_signing_out none = false
is_signing_out (some l) = true

-- The body of the request, once it is answered.
unfoldable pub take_answer : Answer → Session → Session
take_answer (renewed expires_at) s =
    if is_signing_out s.logout then s else record_session_expiry expires_at s
take_answer (refused status) s = if status == 401 then remove_token s else s
take_answer unreachable s = s

-- `this.refreshPromise.catch(() => {}).then(clearCookies)`
unfoldable pub stop_waiting : ℕ → Option Logout → Option Logout
stop_waiting id none = none
stop_waiting id (some clearing) = some clearing
stop_waiting id (some (after_refresh r)) = if r == id then some clearing else some (after_refresh r)

-- The answer to a refresh, the `finally` of `refreshSession`, and what a logout does next.
unfoldable pub refresh_answered : ℕ → Answer → Session → Session
unfolding take_answer stop_waiting
refresh_answered id a s =
    let t = take_answer a s in
    record t {
      refresh = none;
      in_flight = remove_id id t.in_flight;
      logout = stop_waiting id t.logout;
    }

unfoldable pub ensure_session_validity : ℕ → ℕ → Session → Session
ensure_session_validity now minimum s = elim s.expiry [
  | none ↦ s
  | some at ↦ if leb at (now + minimum) then refresh_session s else s
]

-- Who the logout waits for, if it has not begun already.
unfoldable pub begin_logout : Option Logout → Option ℕ → Option Logout
begin_logout (some l) r = some l
begin_logout none (some id) = some (after_refresh id)
begin_logout none none = some clearing

unfoldable pub log_out : Session → Session
unfolding begin_logout
log_out s = record s {
  cached_user = none;
  expiry = none;
  notice = none;
  local = clear_user_content s.local;
  logout = begin_logout s.logout s.refresh;
}

-- The request to clear the cookies has ended, well or not.
unfoldable pub finish_logout : Option Logout → Option Logout
finish_logout (some (after_refresh r)) = some (after_refresh r)
finish_logout (some clearing) = none
finish_logout none = none

unfoldable pub logout_answered : Session → Session
unfolding finish_logout
logout_answered s = record s { logout = finish_logout s.logout }

-- `login` sends its request only when no logout is under way; `changePassword` ends the same way.
unfoldable pub logged_in : Option ℕ → Session → Session
unfolding record_session_expiry
logged_in = record_session_expiry

-- `getCurrentUser`: a request, unless one is kept; and its answer.
unfoldable pub get_current_user : Session → Session
get_current_user s = elim s.cached_user [
  | some id ↦ s
  | none ↦ record s { cached_user = some s.next_request; next_request = s.next_request + 1 }
]

-- `if (this.cachedUserPromise === request) this.cachedUserPromise = null`
unfoldable pub forget_user : ℕ → Option ℕ → Option ℕ
forget_user id none = none
forget_user id (some r) = if r == id then none else some r

unfoldable pub user_answered : ℕ → ℕ → Session → Session
unfolding forget_user
user_answered id status s =
    if leb 200 status && leb status 299
    then s
    else let t = if status == 401 then remove_token s else s in
      record t { cached_user = forget_user id t.cached_user }

-- `expiresAt !== null && expiresAt > Date.now()`
abbrev pub is_open : ℕ → Option ℕ → Bool
is_open now none = false
is_open now (some at) = ltb now at

unfoldable pub is_authenticated : ℕ → Session → Bool
is_authenticated now s = is_open now s.expiry

unfoldable pub set_sign_in_notice : Text → Session → Session
set_sign_in_notice reason s = record s { notice = some (told reason) }

unfoldable pub clear_session_expiry : Session → Session
clear_session_expiry s = record s { notice = none }
