-- ===== src/Settings.antt =====
-- features/settings/useSettings.ts and features/auth/usernamePolicy.ts (under frontend/src): the
-- state of the settings page and its handlers, each up to its call of the server and from its
-- answer on.
pub mod Events
pub mod Laws
mod Examples
use prompt_maker_studio.Base.{
  ltb, leb, ◌==◌, if◌then◌else◌, ==_iff, ==_refl, Bool-cases, Option-cases, both, either,
  eq_of_some, same, none_ne_some, false_ne_true, true_of_not, false_of_not, length, get_elem?, take,
  drop, filter, any, all, find?, All, concat, slice, drop-drop, length-append, take-append-drop,
  slice-append-drop, length-take, length-drop, take-append-length, drop-append-length,
  filter-append, length-filter-le, drop-all, slice-empty, concat-append, length-reverse, Text, text,
  text_eq, text_eq_refl, eq_of_text_eq, text_eq_iff, text_eq_comm, includes, is_space, trim_start,
  trim_end, trim, is_empty, join, take_while, drop_while, strip, length-strip, eq_of_strip,
  strip-append, length-drop_while, length-trim_start, push_new, push_all, set_of, first_uses,
  IsDistinct, includes-append, filter-filter, push_all-first_uses, set_of-first_uses,
  includes-first_uses, first_uses-IsDistinct, IsDistinct-snoc, push_new-cons, digits, decimal,
  decimal-is_digit, decimal_inj, trim_idem, ℕ, zero, suc, ◌+◌, ◌-◌, ◌*◌, ◌/◌, ◌%◌, ◌≤◌, ◌<◌, max,
  min, ◌≡◌, refl, sym, ap, ap₂, ◌∙◌, subst, fun_ext, ◌≢◌, ◌↔◌, ◌⊎◌, inl, inr, Bool, true, false,
  not, ◌&&◌, ◌||◌, Option, none, some, some-injective, List, [], ◌∷◌, ◌++◌, map, append-nil,
  append_assoc, map-append, arith,
}
use prompt_maker_studio.Api.{
  Failure, api_error, other_error, not_an_error, Outcome, answered, failed,
}

pub data DefaultLibraryView : Type 0 where
  grid list : DefaultLibraryView

-- What the page shows of `User`.
pub record User : Type 0 where
  pub username : Text
  pub email : Text
  pub default_library_view : DefaultLibraryView

-- `PreferenceSaveStatus`
pub data SaveStatus : Type 0 where
  saving saved : SaveStatus

pub data FormError : Type 0 where
  no_username username_policy bad_email no_password request_failed : FormError
  reported : Text → FormError

pub record Settings : Type 0 where
  pub current_user : Option Text
  pub user : Option User
  pub view_save : Option SaveStatus
  pub prefs_error : Option FormError
  pub show_username_edit : Bool
  pub new_username : Text
  pub username_error : Option FormError
  pub show_email_edit : Bool
  pub new_email : Text
  pub email_password : Text
  pub email_error : Option FormError
  pub is_exporting : Bool
  pub export_error : Option FormError
  -- The file of the success message.
  pub export_success : Option Text
  pub show_delete_confirm : Bool
  pub is_deleting : Bool
  pub delete_password : Text
  pub delete_error : Option FormError
  pub is_signing_out_everywhere : Bool
  pub sign_out_error : Option FormError
  -- `preferenceSaveSequence`, and the timer with the sequence that it was set for.
  pub sequence : ℕ
  pub timer : Option ℕ
  -- The saves of the library view that have not been answered.
  pub in_flight : List ℕ
  -- `logout`, and the notice for the sign-in screen.
  pub signed_out : Bool
  pub account_deleted : Bool

abbrev pub form_error : Failure → FormError
form_error (api_error status message) = reported message
form_error (other_error message) = reported message
form_error not_an_error = request_failed

-- `[a-zA-Z0-9_-]`
unfoldable pub is_username_char : ℕ → Bool
is_username_char c =
    (leb 97 c && leb c 122)
    || (leb 65 c && leb c 90)
    || (leb 48 c && leb c 57)
    || c == 95
    || c == 45

-- Whether `usernamePolicyError` has nothing to say.
unfoldable pub is_allowed_username : Text → Bool
unfolding is_username_char
is_allowed_username username =
    let name = trim username in
    all is_username_char name && leb 3 (length name) && leb (length name) 50

unfoldable pub start_username : Settings → Settings
unfolding is_allowed_username
start_username s =
    if is_empty (trim s.new_username)
    then record s { username_error = some no_username }
    else if is_allowed_username (trim s.new_username)
    then record s { username_error = none }
    else record s { username_error = some username_policy }

unfoldable pub settle_username : Outcome User → Settings → Settings
settle_username (answered updated) s = record s {
  user = some updated;
  current_user = some updated.username;
  show_username_edit = false;
}
settle_username (failed f) s = record s { username_error = some (form_error f) }

-- `[^\s@]`
abbrev pub is_address_char : ℕ → Bool
is_address_char c = not (is_space c) && not (c == 64)

-- A dot with something on both sides.
abbrev pub has_inner_dot : Text → Bool
has_inner_dot [] = false
has_inner_dot (c ∷ []) = false
has_inner_dot (c ∷ d ∷ s) = (d == 46 && not (is_empty s)) || has_inner_dot (d ∷ s)

abbrev pub is_domain : Text → Bool
is_domain [] = false
is_domain (c ∷ domain) = c == 64 && all is_address_char domain && has_inner_dot domain

-- `/^[^\s@]+@[^\s@]+\.[^\s@]+$/`
unfoldable pub is_email : Text → Bool
is_email s =
    not (is_empty (take_while is_address_char s)) && is_domain (drop_while is_address_char s)

unfoldable pub start_email : Settings → Settings
unfolding is_email
start_email s =
    if is_email (trim s.new_email)
    then (if is_empty s.email_password
        then record s { email_error = some no_password }
        else record s { email_error = none })
    else record s { email_error = some bad_email }

unfoldable pub settle_email : Outcome User → Settings → Settings
settle_email (answered updated) s = record s {
  user = some updated;
  email_password = [];
  show_email_edit = false;
}
settle_email (failed f) s = record s { email_error = some (form_error f) }

-- `handleDefaultLibraryViewChange`, to its call.
unfoldable pub change_view : Settings → Settings
change_view s = record s {
  sequence = s.sequence + 1;
  timer = none;
  prefs_error = none;
  view_save = some saving;
  in_flight = s.in_flight ++ (s.sequence + 1) ∷ [];
}

abbrev pub view_outcome : ℕ → Outcome User → Settings → Settings
view_outcome sequence (answered updated) s = record s {
  user = some updated;
  view_save = some saved;
  timer = some sequence;
}
view_outcome sequence (failed f) s = record s {
  view_save = none;
  prefs_error = some (form_error f);
}

abbrev pub take_view_answer : ℕ → Outcome User → Settings → Settings
take_view_answer sequence o s = if s.sequence == sequence then view_outcome sequence o s else s

-- The answer to the save with that number; only the latest shows.
unfoldable pub settle_view : ℕ → Outcome User → Settings → Settings
settle_view sequence o s =
    if any (λ n. n == sequence) s.in_flight
    then take_view_answer sequence o
        (record s { in_flight = filter (λ n. not (n == sequence)) s.in_flight })
    else s

abbrev pub hide_saved : ℕ → Settings → Settings
hide_saved sequence s = if s.sequence == sequence then record s { view_save = none } else s

-- The timer fires, 1.5 seconds after a save.
unfoldable pub view_timer : Settings → Settings
view_timer s = elim s.timer [
  | none ↦ s
  | some sequence ↦ hide_saved sequence (record s { timer = none })
]

unfoldable pub start_export : Settings → Settings
start_export s = record s { is_exporting = true; export_error = none; export_success = none }

-- `filename` is made from the local date.
unfoldable pub settle_export : Text → Outcome Unit → Settings → Settings
settle_export filename (answered blob) s = record s {
  export_success = some filename;
  is_exporting = false;
}
settle_export filename (failed f) s = record s {
  export_error = some (form_error f);
  is_exporting = false;
}

-- After five seconds the message goes, if it still names the file.
unfoldable pub export_timer : Text → Settings → Settings
export_timer filename s = elim s.export_success [
  | none ↦ s
  | some name ↦ if text_eq name filename then record s { export_success = none } else s
]

unfoldable pub start_sign_out : Settings → Settings
start_sign_out s = record s { is_signing_out_everywhere = true; sign_out_error = none }

unfoldable pub settle_sign_out : Outcome Unit → Settings → Settings
settle_sign_out (answered done) s = record s { signed_out = true }
settle_sign_out (failed f) s = record s {
  sign_out_error = some (form_error f);
  is_signing_out_everywhere = false;
}

unfoldable pub start_delete : Settings → Settings
start_delete s = record s { is_deleting = true; delete_error = none }

unfoldable pub settle_delete : Outcome Unit → Settings → Settings
settle_delete (answered done) s = record s { signed_out = true; account_deleted = true }
settle_delete (failed f) s = record s { delete_error = some (form_error f); is_deleting = false }

unfoldable pub close_delete_confirm : Settings → Settings
close_delete_confirm s = record s {
  show_delete_confirm = false;
  delete_password = [];
  delete_error = none;
}
