-- ===== src/Import/Dialog/Run.antt =====
-- features/library/ImportPrompts.tsx: `importPrompts`, which sends the chosen prompts one after the
-- other. What the server replies is a parameter: none is a request that fails. The result is none
-- where the code would read the target of an update that has none. The text of the source, the
-- chosen files and the strings of the messages are left out; the numbers of the message are kept.
use prompt_maker_studio.Import.Dialog.Values.{map_option, to_json}
use prompt_maker_studio.Base.{
  ltb, if◌then◌else◌, length, Text, ℕ, ◌+◌, ℤ, pos, ◌-ℤ◌, Bool, false, not, ◌&&◌, Option, none,
  some, List, [], ◌∷◌, ◌++◌, map,
}
use prompt_maker_studio.Sections.Chars.{PromptField}
use prompt_maker_studio.Import.Json.{array, to_items, Result, ok, err}
use prompt_maker_studio.Import.Validate.{ImportPrompt, ImportError, validate_import_prompts}
use prompt_maker_studio.Import.Conversion.{
  ImportSettings, merge_settings, or_no_settings, reapply_conversions,
}
use prompt_maker_studio.Import.Dialog.{
  Saved, PreviewRow, Titles, by_title, is_duplicate, update_target, ticked, updates, included,
  filter_from, current_of,
}

-- What an update sends, but for its note.
pub record UpdateRequest : Type 0 where
  pub id : ℕ
  pub fields : List PromptField
  pub variable_metadata : Option ImportSettings
  pub last_updated_at : Option Text

-- The locals of the two loops.
pub record SentPrompts : Type 0 where
  pub created : List Saved
  pub failed : List ImportPrompt
  pub updated : ℕ
  pub progress : ℕ

pub record Summary : Type 0 where
  pub added : ℤ
  pub of : ℕ
  pub updated : ℕ
  pub duplicates : ℕ
  pub omitted : ℤ
  pub failed : ℕ

pub record DialogState : Type 0 where
  pub preview : Option (List PreviewRow)
  pub toggled : List ℕ
  pub updating : List ℕ
  pub before_convert : Option (List PreviewRow)
  pub session : List Saved
  pub imported : List Saved
  pub done : Option (List Saved)
  pub error : Option ImportError
  pub summary : Option Summary
  pub busy : Bool
  pub progress : ℕ
  pub notifications : ℕ

abbrev pub or_kept : Option Saved → Saved → Saved
or_kept none saved = saved
or_kept (some favored) saved = favored

-- `setProgress(created.length + failed.length)`
abbrev pub with_progress : SentPrompts → SentPrompts
with_progress st = record st { progress = length st.created + length st.failed }

abbrev pub merged : Option ImportSettings → Option ImportSettings → Option ImportSettings
merged none current = none
merged (some md) current = some (merge_settings md (or_no_settings current))

-- `...(updated_at && { last_updated_at })`
abbrev pub given : Option Text → Option Text
given none = none
given (some []) = none
given (some (c ∷ s)) = some (c ∷ s)

abbrev pub retried : List ImportPrompt → Option (List PreviewRow)
retried [] = none
retried (p ∷ ps) = some (map (λ q. record { prompt = q; flag = none }) (p ∷ ps))

-- What is done once every request has been answered.
unfoldable pub finish :
    (of duplicates : ℕ) (left_over : ℤ) → SentPrompts → DialogState → DialogState
finish of duplicates left_over sent d = record d {
  imported = d.imported ++ sent.created;
  session = d.session ++ sent.created;
  notifications = if ltb 0 (length sent.created) then d.notifications + 1 else d.notifications;
  preview = retried sent.failed;
  toggled = [];
  updating = [];
  before_convert = none;
  done = if ltb 0 (length sent.failed) then none else some sent.created;
  summary = some (record {
    added = pos (length sent.created) -ℤ sent.updated;
    of = of;
    updated = sent.updated;
    duplicates = duplicates;
    omitted = left_over;
    failed = length sent.failed;
  });
  error = none;
  busy = false;
  progress = sent.progress;
}

abbrev pub nothing_sent : SentPrompts
nothing_sent = record { created = []; failed = []; updated = 0; progress = 0 }

module _ (to_lower to_upper : Text → Text) where
  unfoldable pub update_request : ImportPrompt → Saved → UpdateRequest
  update_request p current =
      let next = reapply_conversions to_lower to_upper (current_of current) p in
      record {
        id = current.id;
        fields = next.fields;
        variable_metadata = merged next.variable_metadata current.variable_metadata;
        last_updated_at = given current.updated_at;
      }

  -- `count ? validateImportPrompts(rows) : []`
  abbrev pub validated : List PreviewRow → Result ImportError (List ImportPrompt)
  validated [] = ok []
  validated (row ∷ rows) =
      validate_import_prompts to_upper false
        (array (to_items (map (λ r. to_json r.prompt) (row ∷ rows))))

  -- The duplicates that are is_skipped.
  unfoldable pub is_skipped : Titles → (toggled updating : List ℕ) → PreviewRow → ℕ → Bool
  is_skipped titles toggled updating row index =
      is_duplicate to_lower to_upper titles row.prompt
      && not (ticked to_lower to_upper titles toggled row index)
      && not (updates to_lower to_upper titles updating row index)

  -- `leftOut`, a difference of counts, which is an integer.
  unfoldable pub left_out : Titles → (toggled updating : List ℕ) → List PreviewRow → ℤ
  unfolding is_skipped
  left_out titles toggled updating rows =
      pos (length rows)
      -ℤ length (filter_from (is_skipped titles toggled updating) 0 rows)
      -ℤ length (filter_from (included to_lower to_upper titles toggled updating) 0 rows)
      -ℤ length (filter_from (updates to_lower to_upper titles updating) 0 rows)

-- The server's replies, with the number of the prompt in its loop.
pub record Replies : Type 0 where
  pub create : ℕ → ImportPrompt → Option Saved
  pub favor : ℕ → Saved → Option Saved
  pub update : ℕ → UpdateRequest → Option Saved

module _ (server : Replies) where
  unfoldable pub create_step : ℕ → ImportPrompt → SentPrompts → SentPrompts
  create_step n p st = with_progress (elim (server.create n p) [
    | none ↦ record st { failed = st.failed ++ p ∷ [] }
    | some saved ↦ record st {
      created =
          st.created
          ++ (if p.is_favorite then or_kept (server.favor n saved) saved else saved) ∷ [];
    }
  ])

  unfoldable pub send_creates : ℕ → List ImportPrompt → SentPrompts → SentPrompts
  unfolding create_step
  send_creates n [] st = st
  send_creates n (p ∷ ps) st = send_creates (n + 1) ps (create_step n p st)

  unfoldable pub update_step : ℕ → UpdateRequest → ImportPrompt → SentPrompts → SentPrompts
  update_step n request p st = with_progress (elim (server.update n request) [
    | none ↦ record st { failed = st.failed ++ p ∷ [] }
    | some saved ↦ record st { created = st.created ++ saved ∷ []; updated = st.updated + 1 }
  ])

  module _ (to_lower to_upper : Text → Text) where
    unfoldable pub send_updates : Titles → ℕ → List ImportPrompt → SentPrompts → Option SentPrompts
    unfolding update_step update_request
    send_updates titles n [] st = some st
    send_updates titles n (p ∷ ps) st = elim (update_target to_lower to_upper titles p) [
      | none ↦ none
      | some current ↦
          send_updates titles (n + 1) ps
            (update_step n (update_request to_lower to_upper p current) p st)
    ]

    abbrev pub send_all :
        Titles
        → (duplicates : ℕ) (left_over : ℤ) → List ImportPrompt
        → List ImportPrompt
        → DialogState
        → Option DialogState
    send_all titles duplicates left_over to_create to_update d =
        map_option (λ sent. finish (length to_create) duplicates left_over sent d)
          (send_updates titles 0 to_update (send_creates 0 to_create nothing_sent))

    -- The whole handler, with the rows of the preview.
    unfoldable pub import_prompts :
        (existing : List Saved) → List PreviewRow → DialogState → Option DialogState
    unfolding send_creates send_updates left_out finish
    import_prompts existing rows d =
        let titles = by_title to_lower to_upper d.session existing in
        let chosen = filter_from (included to_lower to_upper titles d.toggled d.updating) 0 rows in
        let changed = filter_from (updates to_lower to_upper titles d.updating) 0 rows in
        let duplicates =
          length (filter_from (is_skipped to_lower to_upper titles d.toggled d.updating) 0 rows) in
        elim (validated to_lower to_upper chosen) [
          | err e ↦ some (record d { error = some e })
          | ok to_create ↦ elim (validated to_lower to_upper changed) [
            | err e ↦ some (record d { error = some e })
            | ok to_update ↦
                send_all titles duplicates
                  (left_out to_lower to_upper titles d.toggled d.updating rows) to_create to_update
                  d
          ]
        ]
