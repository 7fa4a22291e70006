-- ===== src/Session/Examples.antt =====
-- Tests of the session and the storage, and the theorems about them at concrete values.
use prompt_maker_studio.Base.{
  if◌then◌else◌, length, text, ◌+◌, ◌≤◌, ◌≡◌, refl, false, not, ◌&&◌, none, some, [], ◌∷◌, arith,
}
use prompt_maker_studio.Session.Storage.{
  Store, get_item, is_user_content, is_some, clear_user_content, is_legacy, renamed_key,
  migrate_legacy_keys,
}
use prompt_maker_studio.Session.Storage.Clearing.{holds_text, clear_user_content_exact}
use prompt_maker_studio.Editor.Drafts.{draft_key}
use prompt_maker_studio.Evaluation.Hook.{proposals_key}
use prompt_maker_studio.Session.Storage.Migration.{migrate_legacy_keys_moves}
use prompt_maker_studio.Session.{
  remove_token, logout_answered, Session, Answer, renewed, Logout, clearing, refresh_session,
  refresh_answered, log_out, is_authenticated,
}
use prompt_maker_studio.Session.Renewal.{Step, here, next, refreshes_are_shared}
use prompt_maker_studio.Session.SignOut.{late_refresh}

abbrev store : Store
store =
    (text "prompt-maker:theme", text "dark")
    ∷ (text "prompt-maker-studio:draft:ann", text "Write")
    ∷ (text "prompt-maker-studio:editor-draft:ann:3", text "Edit")
    ∷ (text "other", text "kept")
    ∷ []

storage_test :
    (clear_user_content store
      ≡ (text "prompt-maker:theme", text "dark") ∷ (text "other", text "kept") ∷ [])
    × (migrate_legacy_keys store
        ≡ (text "prompt-maker-studio:draft:ann", text "Write")
          ∷ (text "prompt-maker-studio:editor-draft:ann:3", text "Edit")
          ∷ (text "other", text "kept")
          ∷ (text "prompt-maker-studio:theme", text "dark")
          ∷ [])
unfolding clear_user_content prompt_maker_studio.Session.Storage.remove_all is_user_content
    prompt_maker_studio.Session.Storage.starts_with prompt_maker_studio.Session.Storage.storage_key
    prompt_maker_studio.Session.Storage.remove_item migrate_legacy_keys is_legacy
    prompt_maker_studio.Session.Storage.migrate_key get_item renamed_key
    prompt_maker_studio.Session.Storage.set_item
storage_test = (refl, refl)

clear_user_content_exact_example :
    (get_item (clear_user_content store) (text "other")
      ≡ (if holds_text (text "other") then none else get_item store (text "other")))
    × (get_item (clear_user_content store) (draft_key (text "ann") (some 3)) ≡ none)
    × (get_item (clear_user_content store) (proposals_key (text "ann") 3) ≡ none)
clear_user_content_exact_example =
    clear_user_content_exact store (text "other") (text "ann") (some 3) 3

migrate_legacy_keys_moves_example :
    (get_item (migrate_legacy_keys store) (text "prompt-maker:theme") ≡ none)
    × (get_item (migrate_legacy_keys store) (text "prompt-maker-studio:theme") ≡ (
        if is_some (get_item store (text "prompt-maker-studio:theme"))
        then get_item store (text "prompt-maker-studio:theme")
        else get_item store (text "prompt-maker:theme")))
migrate_legacy_keys_moves_example = migrate_legacy_keys_moves store (text "theme")

abbrev session : Session
session = record {
  expiry = some 5000;
  notice = none;
  local = store;
  cached_user = none;
  refresh = none;
  logout = none;
  in_flight = [];
  next_request = 0;
  address = text "/library";
}

abbrev renewing : Session
renewing = refresh_session session

session_test :
    ((log_out renewing).expiry ≡ none)
    × ((refresh_answered 0 (renewed (some 9000)) renewing).expiry ≡ some 9000)
    × ((refresh_answered 0 (renewed (some 9000)) (log_out renewing)).expiry ≡ none)
unfolding log_out refresh_answered refresh_session prompt_maker_studio.Session.record_session_expiry
session_test = (refl, refl, refl)

refreshes_are_shared_example : length (refresh_session renewing).in_flight ≤ 0 + 1
refreshes_are_shared_example =
    refreshes_are_shared 0 session (refresh_session renewing) refl
      (next (next here (Step.renew session)) (Step.renew renewing))

late_refresh_example :
    ((is_authenticated 1000 (refresh_answered 0 (renewed (some 9000)) (log_out renewing))
        && not (is_authenticated 1000 (log_out renewing)))
      ≡ false)
    × ((refresh_answered 0 (renewed (some 9000)) (log_out renewing)).logout ≡ some clearing)
unfolding refresh_session log_out
late_refresh_example =
    late_refresh renewing (log_out renewing) 0 0 1000 (renewed (some 9000)) refl refl (omega arith)
      here refl

-- A session dropped while a refresh is under way: signing out does not wait for the refresh, and its
-- answer is recorded.
dropped_refresh_test :
    ((log_out (remove_token renewing)).logout ≡ some clearing)
    × ((refresh_answered 0
          (renewed (some 9000))
          (logout_answered (log_out (remove_token renewing)))).expiry
        ≡ some 9000)
unfolding log_out remove_token refresh_session refresh_answered logout_answered
    prompt_maker_studio.Session.record_session_expiry
dropped_refresh_test = (refl, refl)
