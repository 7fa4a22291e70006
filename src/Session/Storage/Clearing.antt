-- ===== src/Session/Storage/Clearing.antt =====
-- Which entries `clearUserContentKeys` of lib/branding.ts removes, key by key.
use prompt_maker_studio.Base.{
  if◌then◌else◌, any, take, length, Text, text_eq, List, arith, text, ℕ, ◌≡◌, refl, ◌∙◌, ap, Bool,
  none, Option, [], ◌∷◌,
}
use prompt_maker_studio.Session.Storage.{
  Store, get_item, starts_with, storage_key, is_user_content, clear_user_content,
}
use prompt_maker_studio.Session.Storage.Laws.{get_item-clear_user_content}
use prompt_maker_studio.Editor.Drafts.{draft_key}
use prompt_maker_studio.Evaluation.Hook.{proposals_key}

-- The beginnings of the keys that hold a user's text, written out whole.
abbrev beginnings : List Text
beginnings =
    text "prompt-maker-studio:draft:"
    ∷ text "prompt-maker-studio:editor-draft:"
    ∷ text "prompt-maker-studio:refine:"
    ∷ text "prompt-maker-studio:eval-suggestions:"
    ∷ []

abbrev pub holds_text : Text → Bool
holds_text key = any (λ beginning. text_eq beginning (take (length beginning) key)) beginnings

starts_with_lem :
    (beginning key : Text)
    → starts_with beginning key ≡ text_eq beginning (take (length beginning) key)
unfolding starts_with
starts_with_lem [] key = refl
starts_with_lem (c ∷ cs) [] = refl
starts_with_lem (c ∷ cs) (d ∷ key) = ground (arith, starts_with_lem cs key)

any_ext : (p q : Text → Bool) (ts : List Text) → ((t : Text) → p t ≡ q t) → any p ts ≡ any q ts
any_ext p q [] h = refl
any_ext p q (t ∷ ts) h = rw (h t, any_ext p q ts h) refl

is_user_content-holds_text : (key : Text) → is_user_content key ≡ holds_text key
unfolding is_user_content storage_key
is_user_content-holds_text key = any_ext _ _ beginnings (λ beginning. starts_with_lem beginning key)

get_item-cleared :
    (store : Store) (key : Text)
    → get_item (clear_user_content store) key
      ≡ (if holds_text key then none else get_item store key)
get_item-cleared store key =
    get_item-clear_user_content store key
    ∙ ap (λ b. if b then none else get_item store key) (is_user_content-holds_text key)

-- `clearUserContentKeys` leaves nothing under a key that begins with `prompt-maker-studio:` and one
-- of `draft:`, `editor-draft:`, `refine:` and `eval-suggestions:`, and under any other key what was
-- found before. So the draft of the editor of any user and prompt is gone, and so are the
-- suggestions that the evaluation kept.
pub clear_user_content_exact :
    (store : Store) (key user : Text) (id : Option ℕ) (prompt : ℕ)
    → (get_item (clear_user_content store) key
        ≡ (if holds_text key then none else get_item store key))
      × (get_item (clear_user_content store) (draft_key user id) ≡ none)
      × (get_item (clear_user_content store) (proposals_key user prompt) ≡ none)
unfolding draft_key proposals_key storage_key starts_with
clear_user_content_exact store key user id prompt = (
  get_item-cleared store key,
  get_item-cleared store (draft_key user id),
  get_item-cleared store (proposals_key user prompt),
)
