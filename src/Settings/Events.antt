-- ===== src/Settings/Events.antt =====
-- What happens on the settings page, one event after another.
use prompt_maker_studio.Base.{Text, ℕ, List, [], ◌∷◌}
use prompt_maker_studio.Api.{Outcome}
use prompt_maker_studio.Settings.{
  User, Settings, start_username, settle_username, start_email, settle_email, change_view,
  settle_view, view_timer, start_export, settle_export, export_timer, start_sign_out,
  settle_sign_out, start_delete, settle_delete, close_delete_confirm,
}

-- What happens on the page; the answers come in any order.
pub data Event : Type 0 where
  submit_username submit_email change_library_view view_timer_fires : Event
  export sign_out_everywhere delete_account close_confirm : Event
  username_answer email_answer : Outcome User → Event
  view_answer : (sequence : ℕ) → Outcome User → Event
  export_answer : Text → Outcome Unit → Event
  export_timer_fires : Text → Event
  sign_out_answer delete_answer : Outcome Unit → Event

unfoldable pub handle : Event → Settings → Settings
handle submit_username s = start_username s
handle submit_email s = start_email s
handle change_library_view s = change_view s
handle view_timer_fires s = view_timer s
handle Event.export s = start_export s
handle sign_out_everywhere s = start_sign_out s
handle delete_account s = start_delete s
handle close_confirm s = close_delete_confirm s
handle (username_answer o) s = settle_username o s
handle (email_answer o) s = settle_email o s
handle (view_answer n o) s = settle_view n o s
handle (export_answer filename o) s = settle_export filename o s
handle (export_timer_fires filename) s = export_timer filename s
handle (sign_out_answer o) s = settle_sign_out o s
handle (delete_answer o) s = settle_delete o s

unfoldable pub run : List Event → Settings → Settings
unfolding handle
run [] s = s
run (ev ∷ evs) s = run evs (handle ev s)
