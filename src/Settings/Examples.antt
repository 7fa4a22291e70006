-- ===== src/Settings/Examples.antt =====
-- Tests of the settings page, and of the theorem about it.
use prompt_maker_studio.Base.{
  none_ne_some, text, is_space, ◌≡◌, refl, ◌≢◌, true, false, none, some, List, [], ◌∷◌,
}
use prompt_maker_studio.Api.{answered, failed, api_error}
use prompt_maker_studio.Settings.{
  User, grid, list, Settings, saving, saved, FormError, reported, is_email, is_allowed_username,
}
use prompt_maker_studio.Settings.Events.{
  Event, run, change_library_view, view_answer, view_timer_fires, submit_username,
}
use prompt_maker_studio.Settings.Laws.{saving_ends}

abbrev ann : User
ann = record { username = text "ann"; email = text "ann@example.org"; default_library_view = grid }

abbrev ann_with_list : User
ann_with_list = record ann { default_library_view = list }

abbrev page : Settings
page = record {
  current_user = some (text "ann");
  user = some ann;
  view_save = none;
  prefs_error = none;
  show_username_edit = true;
  new_username = text " a ";
  username_error = none;
  show_email_edit = false;
  new_email = [];
  email_password = [];
  email_error = none;
  is_exporting = false;
  export_error = none;
  export_success = none;
  show_delete_confirm = false;
  is_deleting = false;
  delete_password = [];
  delete_error = none;
  is_signing_out_everywhere = false;
  sign_out_error = none;
  sequence = 0;
  timer = none;
  in_flight = [];
  signed_out = false;
  account_deleted = false;
}

-- Two changes, the second answered first, and refused.
abbrev out_of_order : List Event
out_of_order =
    change_library_view
    ∷ change_library_view
    ∷ view_answer 2 (failed (api_error 500 (text "Down")))
    ∷ view_answer 1 (answered ann_with_list)
    ∷ []

out_of_order_test :
    ((run out_of_order page).prefs_error ≡ some (reported (text "Down")))
    × ((run out_of_order page).user ≡ some ann)
    × ((run out_of_order page).view_save ≡ none)
unfolding run prompt_maker_studio.Settings.settle_view prompt_maker_studio.Settings.change_view
out_of_order_test = (refl, refl, refl)

saved_test :
    ((run (change_library_view ∷ view_answer 1 (answered ann_with_list) ∷ []) page).view_save
      ≡ some saved)
    × ((run
          (change_library_view ∷ view_answer 1 (answered ann_with_list) ∷ view_timer_fires ∷ [])
          page).view_save
        ≡ none)
unfolding run prompt_maker_studio.Settings.settle_view prompt_maker_studio.Settings.change_view
    prompt_maker_studio.Settings.view_timer
saved_test = (refl, refl)

username_test : (run (submit_username ∷ []) page).username_error ≡ some FormError.username_policy
unfolding run prompt_maker_studio.Settings.start_username is_space
username_test = refl

email_test :
    (is_email (text "ann@example.org") ≡ true)
    × (is_email (text "ann@example") ≡ false)
    × (is_email (text "ann@.org") ≡ false)
    × (is_email (text "a n@x.y") ≡ false)
unfolding is_email is_space
email_test = (refl, refl, refl, refl)

saving_ends_example : (run out_of_order page).view_save ≢ some saving
unfolding run prompt_maker_studio.Settings.settle_view prompt_maker_studio.Settings.change_view
saving_ends_example = saving_ends out_of_order page (λ e. absurd (none_ne_some e)) refl
