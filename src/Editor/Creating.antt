-- ===== src/Editor/Creating.antt =====
-- features/editor/usePromptEditor.ts: `createPrompt`, which saves a new prompt for the first time.
use prompt_maker_studio.Base.{
  if◌then◌else◌, any, Text, trim, is_empty, Bool, true, false, not, ◌||◌, Option, none, some, [],
}
use prompt_maker_studio.Api.{Failure, Outcome, answered, failed}
use prompt_maker_studio.Session.Storage.{set_item, remove_item}
use prompt_maker_studio.Editor.Metadata.{or_no_metadata, if_text}
use prompt_maker_studio.Editor.Drafts.{Draft, Drafts, draft_key}
use prompt_maker_studio.Editor.State.{
  SavedPrompt, SaveDialog, DialogError, too_long, no_name, save_failed, reported, Create, Editor,
  fields, own_draft_key, prompt_snapshot,
}
use prompt_maker_studio.Editor.Requests.{failure_text, is_too_long}

abbrev pub dialog_error : DialogError → SaveDialog → Editor → Editor
dialog_error err d e = record e { save_dialog = some (record d { error = some err }) }

-- `createPrompt`, to its call.
abbrev pub submit : SaveDialog → Editor → Editor
submit d e =
    if is_too_long (fields e)
    then dialog_error too_long d e
    else if is_empty (trim d.name)
    then dialog_error no_name d e
    else record e {
      saving = true;
      create = some (record {
        dialog = d;
        name = trim d.name;
        fields = fields e;
        folder = if_text (some (trim d.folder));
        metadata = e.metadata;
        values = e.values;
        remember_values = e.remember_values;
      });
    }

unfoldable pub start_create : Editor → Editor
start_create e = elim e.save_dialog [ none ↦ e | some d ↦ if e.saving then e else submit d e ]

-- The draft that carries the values over to the created prompt.
unfoldable pub carried_draft : Create → SavedPrompt → Draft
unfolding prompt_snapshot
carried_draft c created = record {
  base = some (prompt_snapshot created);
  sections = created.fields;
  metadata = or_no_metadata created.metadata;
  note = some [];
  values = some c.values;
  import_session = none;
}

abbrev pub has_values : Create → Bool
has_values c = c.remember_values || any (λ v. not (is_empty v.1)) c.values

abbrev pub carry_values : Create → SavedPrompt → Option Text → Drafts → Drafts
carry_values c created none drafts = drafts
carry_values c created (some user) drafts =
    if has_values c
    then set_item (draft_key user (some created.id)) (carried_draft c created) drafts
    else drafts

abbrev pub remove_at_key : Option Text → Drafts → Drafts
remove_at_key none drafts = drafts
remove_at_key (some key) drafts = remove_item key drafts

abbrev pub create_error : Failure → DialogError
create_error f = elim (failure_text f) [ none ↦ save_failed | some message ↦ reported message ]

abbrev pub created : Create → Outcome SavedPrompt → Editor → Editor
created c (answered p) e = record e {
  drafts = remove_at_key (own_draft_key e) (carry_values c p e.user e.drafts);
  opened = some p.id;
}
created c (failed f) e = record (dialog_error (create_error f) c.dialog e) { saving = false }

-- The rest of `createPrompt`; after a success the page of the created prompt opens.
unfoldable pub settle_create : Outcome SavedPrompt → Editor → Editor
unfolding carried_draft
settle_create o e = elim e.create [ none ↦ e | some c ↦ created c o (record e { create = none }) ]
