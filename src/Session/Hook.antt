-- ===== src/Session/Hook.antt =====
-- features/auth/useSession.ts (under frontend/src): what the pages show of a session. Times are in
-- milliseconds; `now` is the time of a transition. The service is the `AuthService` of Session.
mod Examples
use prompt_maker_studio.Base.{
  ltb, leb, ◌==◌, if◌then◌else◌, ==_iff, ==_refl, Bool-cases, Option-cases, both, either,
  eq_of_some, same, none_ne_some, false_ne_true, true_of_not, false_of_not, length, get_elem?, take,
  drop, filter, any, all, find?, All, concat, slice, drop-drop, length-append, take-append-drop,
  slice-append-drop, length-take, length-drop, take-append-length, drop-append-length,
  filter-append, length-filter-le, drop-all, slice-empty, concat-append, length-reverse, Text, text,
  text_eq, text_eq_refl, eq_of_text_eq, text_eq_iff, text_eq_comm, includes, is_space, trim_start,
  trim_end, trim, is_empty, join, take_while, drop_while, strip, length-strip, eq_of_strip,
  strip-append, length-drop_while, length-trim_start, push_new, push_all, set_of, first_uses,
  IsDistinct, includes-append, filter-filter, push_all-first_uses, set_of-first_uses,
  includes-first_uses, first_uses-IsDistinct, IsDistinct-snoc, push_new-cons, digits, decimal,
  decimal-is_digit, decimal_inj, trim_idem, ℕ, zero, suc, ◌+◌, ◌-◌, ◌*◌, ◌/◌, ◌%◌, ◌≤◌, ◌<◌, max,
  min, ◌≡◌, refl, sym, ap, ap₂, ◌∙◌, subst, fun_ext, ◌≢◌, ◌↔◌, ◌⊎◌, inl, inr, Bool, true, false,
  not, ◌&&◌, ◌||◌, Option, none, some, some-injective, List, [], ◌∷◌, ◌++◌, map, append-nil,
  append_assoc, map-append, arith,
}
use prompt_maker_studio.Api.{Outcome, answered, failed}
use prompt_maker_studio.Session.{
  Session, is_authenticated, get_current_user, remove_token, refresh_session, log_out,
}

pub record SessionHook : Type 0 where
  pub shows_signed_in : Bool
  pub is_checking_auth : Bool
  pub current_user : Option Text
  pub auth_check_error : Bool
  -- The minutes that the warning names.
  pub session_warning : Option ℕ
  pub is_session_urgent : Bool
  -- The `lastRenewal` of the effect.
  pub last_renewal : ℕ
  pub service : Session

-- The end of `checkAuth` when no session is stored.
abbrev pub no_session_stored : SessionHook → SessionHook
no_session_stored h = record h { shows_signed_in = false; is_checking_auth = false }

-- `checkAuth`, to its call.
unfoldable pub check_auth : (now : ℕ) → SessionHook → SessionHook
check_auth now h =
    let checking : SessionHook = record h { is_checking_auth = true; auth_check_error = false } in
    if is_authenticated now h.service
    then record checking { service = get_current_user h.service }
    else no_session_stored checking

-- The answer, with the name of the user; a session that was refused is dropped before.
unfoldable pub auth_checked : (now : ℕ) → Outcome Text → SessionHook → SessionHook
auth_checked now (answered username) h = record h {
  current_user = some username;
  shows_signed_in = true;
  is_checking_auth = false;
}
auth_checked now (failed f) h =
    if is_authenticated now h.service
    then record h { auth_check_error = true; is_checking_auth = false }
    else no_session_stored h

-- The page is shown again.
unfoldable pub revalidate : (now : ℕ) → SessionHook → SessionHook
revalidate now h =
    if is_authenticated now h.service
    then h
    else record h { shows_signed_in = false; current_user = none }

-- `SESSION_EXPIRED_EVENT`
unfoldable pub handle_expired : SessionHook → SessionHook
handle_expired h = record h {
  shows_signed_in = false;
  current_user = none;
  auth_check_error = false;
  is_checking_auth = false;
}

-- `Math.ceil(secondsRemaining / 60)`
unfoldable pub minutes_remaining : (expires_at now : ℕ) → ℕ
minutes_remaining expires_at now = (expires_at - now + 59999) / 60000

abbrev pub warn : ℕ → SessionHook → SessionHook
warn minutes h = record h {
  is_session_urgent = leb minutes 2;
  session_warning = if ltb 0 minutes && leb minutes 5 then some minutes else none;
}

-- 15 seconds before the end the session is dropped.
abbrev pub warn_until : Option ℕ → (now : ℕ) → SessionHook → SessionHook
warn_until none now h = h
warn_until (some zero) now h = h
warn_until (some (suc t)) now h =
    if leb (suc t) (now + 15000)
    then handle_expired (record h { service = remove_token h.service })
    else warn (minutes_remaining (suc t) now) h

-- The effect's `updateWarning`, every ten seconds while signed in.
unfoldable pub update_warning : (now : ℕ) → SessionHook → SessionHook
unfolding handle_expired minutes_remaining
update_warning now h = if h.shows_signed_in then warn_until h.service.expiry now h else h

abbrev pub activity_renewal_interval : ℕ
activity_renewal_interval = 300000

-- `now - lastRenewal < interval`, with half of the lifetime as twice the time.
abbrev pub is_too_soon : Option ℕ → (now last : ℕ) → Bool
is_too_soon none now last = ltb (now - last) activity_renewal_interval
is_too_soon (some expires_at) now last =
    ltb (now - last) activity_renewal_interval && ltb (2 * (now - last)) (expires_at - last)

-- A key or a pointer was pressed.
unfoldable pub renew : (now : ℕ) → SessionHook → SessionHook
renew now h =
    if not h.shows_signed_in || is_too_soon h.service.expiry now h.last_renewal
    then h
    else record h { last_renewal = now; service = refresh_session h.service }

-- `handleAuthSuccess`, to its call and from its answer on.
unfoldable pub auth_success : SessionHook → SessionHook
auth_success h = record h { service = get_current_user h.service }

unfoldable pub auth_succeeded : (now : ℕ) → Outcome Text → SessionHook → SessionHook
auth_succeeded now (answered username) h = record h {
  current_user = some username;
  shows_signed_in = true;
}
auth_succeeded now (failed f) h =
    if is_authenticated now h.service then record h { auth_check_error = true } else h

unfoldable pub logout : SessionHook → SessionHook
logout h = record h { service = log_out h.service; shows_signed_in = false; current_user = none }
