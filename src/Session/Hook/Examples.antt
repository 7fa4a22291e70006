-- ===== src/Session/Hook/Examples.antt =====
-- Tests of the session that the pages show.
use prompt_maker_studio.Base.{text, ◌≡◌, refl, true, false, none, some, []}
use prompt_maker_studio.Api.{failed, not_an_error}
use prompt_maker_studio.Session.{Session}
use prompt_maker_studio.Session.Hook.{
  SessionHook, check_auth, auth_checked, revalidate, update_warning, renew, logout,
}

-- A session that ends at 20 minutes.
abbrev service : Session
service = record {
  expiry = some 1200000;
  notice = none;
  local = [];
  cached_user = none;
  refresh = none;
  logout = none;
  in_flight = [];
  next_request = 1;
  address = text "/library";
}

abbrev signed_in : SessionHook
signed_in = record {
  shows_signed_in = true;
  is_checking_auth = false;
  current_user = some (text "ann");
  auth_check_error = false;
  session_warning = none;
  is_session_urgent = false;
  last_renewal = 0;
  service = service;
}

-- Four minutes and a half before the end, one and a half, and ten seconds.
warning_test :
    ((update_warning 930000 signed_in).session_warning ≡ some 5)
    × ((update_warning 930000 signed_in).is_session_urgent ≡ false)
    × ((update_warning 1110000 signed_in).is_session_urgent ≡ true)
    × ((update_warning 1190000 signed_in).shows_signed_in ≡ false)
    × ((update_warning 1190000 signed_in).service.expiry ≡ none)
unfolding update_warning prompt_maker_studio.Session.remove_token
warning_test = (refl, refl, refl, refl, refl)

-- Input renews after five minutes, or after half of a shorter lifetime.
renewal_test :
    ((renew 299999 signed_in).service.refresh ≡ none)
    × ((renew 300000 signed_in).service.refresh ≡ some 1)
    × ((renew 300000 signed_in).last_renewal ≡ 300000)
unfolding renew prompt_maker_studio.Session.refresh_session
renewal_test = (refl, refl, refl)

-- A check that cannot reach the server keeps the session.
check_test :
    let h = auth_checked 5 (failed not_an_error) (check_auth 5 signed_in) in
    (h.auth_check_error ≡ true) × (h.shows_signed_in ≡ true) × (h.is_checking_auth ≡ false)
unfolding auth_checked prompt_maker_studio.Session.is_authenticated check_auth
    prompt_maker_studio.Session.get_current_user
check_test = (refl, refl, refl)

-- After signing out, a page that comes back from the history stays signed out.
logout_test :
    ((logout signed_in).current_user ≡ none)
    × ((revalidate 5 (logout signed_in)).shows_signed_in ≡ false)
unfolding logout revalidate prompt_maker_studio.Session.is_authenticated
    prompt_maker_studio.Session.log_out
logout_test = (refl, refl)
