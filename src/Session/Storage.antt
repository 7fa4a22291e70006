-- ===== src/Session/Storage.antt =====
-- lib/branding.ts (under frontend/src): what is kept in the browser's storage under the app's name.
-- A store is the list of its entries, in the order of `key(i)`; a key stands in it once.
pub mod Laws
pub mod Clearing
pub mod Migration
use prompt_maker_studio.Base.{
  ltb, leb, ◌==◌, if◌then◌else◌, ==_iff, ==_refl, Bool-cases, Option-cases, both, either,
  eq_of_some, same, none_ne_some, false_ne_true, true_of_not, false_of_not, length, get_elem?, take,
  drop, filter, any, all, find?, All, concat, slice, drop-drop, length-append, take-append-drop,
  slice-append-drop, length-take, length-drop, take-append-length, drop-append-length,
  filter-append, length-filter-le, drop-all, slice-empty, concat-append, length-reverse, Text, text,
  text_eq, text_eq_refl, eq_of_text_eq, text_eq_iff, includes, is_space, trim_start, trim_end, trim,
  is_empty, join, take_while, drop_while, strip, length-strip, strip-append, length-drop_while,
  length-trim_start, push_new, push_all, set_of, first_uses, IsDistinct, includes-append,
  filter-filter, push_all-first_uses, set_of-first_uses, includes-first_uses, first_uses-IsDistinct,
  IsDistinct-snoc, push_new-cons, ℕ, zero, suc, ◌+◌, ◌-◌, ◌*◌, ◌/◌, ◌%◌, ◌≤◌, ◌<◌, max, min, ◌≡◌,
  refl, sym, ap, ap₂, ◌∙◌, subst, fun_ext, ◌≢◌, ◌↔◌, ◌⊎◌, inl, inr, Bool, true, false, not, ◌&&◌,
  ◌||◌, Option, none, some, some-injective, List, [], ◌∷◌, ◌++◌, map, append-nil, append_assoc,
  map-append, arith,
}

abbrev pub Store : Type 0
Store = List (Text × Text)

unfoldable pub get_item {ℓ} : {A : Type ℓ} → List (Text × A) → Text → Option A
get_item [] key = none
get_item ((k, v) ∷ store) key = if text_eq k key then some v else get_item store key

unfoldable pub set_item {ℓ} : {A : Type ℓ} → Text → A → List (Text × A) → List (Text × A)
set_item key value [] = (key, value) ∷ []
set_item key value ((k, v) ∷ store) =
    if text_eq k key then (k, value) ∷ store else (k, v) ∷ set_item key value store

unfoldable pub remove_item {ℓ} : {A : Type ℓ} → Text → List (Text × A) → List (Text × A)
remove_item key = filter (λ e. not (text_eq e.0 key))

abbrev pub is_some {ℓ} : {A : Type ℓ} → Option A → Bool
is_some none = false
is_some (some a) = true

-- `key.startsWith(prefix)`
unfoldable pub starts_with : Text → Text → Bool
starts_with prefix key = is_some (strip prefix key)

abbrev pub app_slug : Text
app_slug = text "prompt-maker-studio"

abbrev pub legacy_app_slug : Text
legacy_app_slug = text "prompt-maker"

unfoldable pub storage_key : Text → Text
storage_key suffix = app_slug ++ (text ":" ++ suffix)

-- `USER_CONTENT_KEY_PREFIXES`
abbrev pub user_content_prefixes : List Text
user_content_prefixes =
    text "draft:" ∷ text "editor-draft:" ∷ text "refine:" ∷ text "eval-suggestions:" ∷ []

unfoldable pub is_user_content : Text → Bool
is_user_content key = any (λ prefix. starts_with (storage_key prefix) key) user_content_prefixes

unfoldable pub remove_all : List Text → Store → Store
remove_all [] store = store
remove_all (key ∷ keys) store = remove_all keys (remove_item key store)

-- `clearUserContentKeys`: the keys are collected first, and then removed.
unfoldable pub clear_user_content : Store → Store
clear_user_content store = remove_all (filter is_user_content (map (λ e. e.0) store)) store

unfoldable pub renamed_key : Text → Text
renamed_key key = app_slug ++ (text ":" ++ drop (length legacy_app_slug + 1) key)

-- The value under its new name, unless one is there already.
unfoldable pub move_value : Text → Option Text → Store → Store
move_value key none store = store
move_value key (some value) store =
    if is_some (get_item store (renamed_key key))
    then store
    else set_item (renamed_key key) value store

-- One round of the second loop of `migrateLegacyStorageKeys`.
unfoldable pub migrate_key : Text → Store → Store
unfolding move_value
migrate_key key store = remove_item key (move_value key (get_item store key) store)

unfoldable pub migrate_keys : List Text → Store → Store
migrate_keys [] store = store
migrate_keys (key ∷ keys) store = migrate_keys keys (migrate_key key store)

unfoldable pub is_legacy : Text → Bool
is_legacy key = starts_with (legacy_app_slug ++ text ":") key

unfoldable pub migrate_legacy_keys : Store → Store
unfolding migrate_keys
migrate_legacy_keys store = migrate_keys (filter is_legacy (map (λ e. e.0) store)) store
