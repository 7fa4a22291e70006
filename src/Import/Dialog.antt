-- ===== src/Import/Dialog.antt =====
-- features/library/ImportPrompts.tsx: which prompts of the preview are imported. The library is the
-- prompts of this session and those the library page shows; the cases of letters are parameters.
pub mod Values
pub mod Run
pub mod Selection
pub mod Outcome
pub mod Targets
pub mod Answered
mod Trials
use prompt_maker_studio.Base.{
  ltb, leb, ◌==◌, if◌then◌else◌, ==_iff, ==_refl, Bool-cases, Option-cases, both, either,
  eq_of_some, same, none_ne_some, false_ne_true, true_of_not, false_of_not, length, get_elem?, take,
  drop, filter, any, all, find?, All, concat, slice, drop-drop, length-append, take-append-drop,
  slice-append-drop, length-take, length-drop, take-append-length, drop-append-length,
  filter-append, length-filter-le, drop-all, slice-empty, concat-append, length-reverse, Text, text,
  text_eq, text_eq_refl, eq_of_text_eq, text_eq_iff, text_eq_comm, includes, is_space, trim_start,
  trim_end, trim, is_empty, join, take_while, drop_while, strip, length-strip, eq_of_strip,
  strip-append, length-drop_while, length-trim_start, push_new, push_all, set_of, first_uses,
  IsDistinct, includes-append, filter-filter, push_all-first_uses, set_of-first_uses,
  includes-first_uses, first_uses-IsDistinct, IsDistinct-snoc, push_new-cons, digits, decimal,
  decimal-is_digit, decimal_inj, trim_end-cons, trim_idem, ℕ, zero, suc, ◌+◌, ◌-◌, ◌*◌, ◌/◌, ◌%◌,
  ◌≤◌, ◌<◌, max, min, ◌≡◌, refl, sym, ap, ap₂, ◌∙◌, subst, fun_ext, ◌≢◌, ◌↔◌, ◌⊎◌, inl, inr, Bool,
  true, false, not, ◌&&◌, ◌||◌, Option, none, some, some-injective, List, [], ◌∷◌, ◌++◌, map,
  append-nil, append_assoc, map-append, arith,
}
use mathlib.Core.List.{reverse}
use prompt_maker_studio.Sections.Chars.{PromptField}
use prompt_maker_studio.Import.Items.{ImportItem}
use prompt_maker_studio.Import.Validate.{ImportPrompt, import_problem}
use prompt_maker_studio.Import.Conversion.{ImportSettings, Current, reapply_conversions}

-- A prompt of the library, as the dialog reads it.
pub record Saved : Type 0 where
  pub id : ℕ
  pub name : Option Text
  pub folder : Option Text
  pub fields : List PromptField
  pub variable_metadata : Option ImportSettings
  pub updated_at : Option Text

-- A prompt of the preview; the flag says why it starts unticked.
pub record PreviewRow : Type 0 where
  pub prompt : ImportPrompt
  pub flag : Option Text

abbrev pub or_no_text : Option Text → Text
or_no_text none = []
or_no_text (some s) = s

-- `!!text`
abbrev pub is_given : Option Text → Bool
is_given s = not (is_empty (or_no_text s))

abbrev pub is_present {ℓ} : {A : Type ℓ} → Option A → Bool
is_present none = false
is_present (some _) = true

-- `sameText`: the JSON texts agree exactly if the names and the contents do.
abbrev pub same_text : List PromptField → List PromptField → Bool
same_text [] [] = true
same_text [] (g ∷ gs) = false
same_text (f ∷ fs) [] = false
same_text (f ∷ fs) (g ∷ gs) =
    text_eq f.name g.name && text_eq f.content g.content && same_text fs gs

abbrev pub has_saved : List Saved → ℕ → Bool
has_saved ps id = any (λ p. p.id == id) ps

-- The map of `byTitle`.
abbrev pub Titles : Type 0
Titles = List (Text × List Saved)

abbrev pub titled : Titles → Text → List Saved
titled [] key = []
titled ((k, ps) ∷ map) key = if text_eq k key then ps else titled map key

abbrev pub set_titled : Text → List Saved → Titles → Titles
set_titled key ps [] = (key, ps) ∷ []
set_titled key ps ((k, old) ∷ map) =
    if text_eq k key then (k, ps) ∷ map else (k, old) ∷ set_titled key ps map

abbrev pub only : List Saved → Option Saved
only [] = none
only (p ∷ []) = some p
only (p ∷ q ∷ ps) = none

abbrev pub current_of : Saved → Current
current_of p = record { fields = p.fields; variable_metadata = p.variable_metadata }

abbrev pub member_of : List ℕ → ℕ → Bool
member_of ns n = any (λ m. m == n) ns

module _ (to_lower to_upper : Text → Text) where
  abbrev pub title_key : Option Text → Text
  title_key name = to_lower (trim (or_no_text name))

  unfoldable pub add_title : Titles → Saved → Titles
  add_title map p =
      let key = title_key p.name in
      let same = titled map key in
      if has_saved same p.id then map else set_titled key (same ++ p ∷ []) map

  unfoldable pub add_titles : Titles → List Saved → Titles
  unfolding add_title
  add_titles map [] = map
  add_titles map (p ∷ ps) = add_titles (add_title map p) ps

  unfoldable pub by_title : (session existing : List Saved) → Titles
  unfolding add_titles
  by_title session existing = add_titles [] (reverse session ++ existing)

  module _ (titles : Titles) where
    unfoldable pub matches : ImportPrompt → List Saved
    matches p = titled titles (title_key (some p.name))

    unfoldable pub is_duplicate : ImportPrompt → Bool
    unfolding matches
    is_duplicate p = ltb 0 (length (matches p))

    unfoldable pub is_changed : ImportPrompt → Bool
    unfolding is_duplicate
    is_changed p =
        is_duplicate p
        && not (
            any
              (λ current.
                same_text p.fields current.fields
                || same_text (reapply_conversions to_lower to_upper (current_of current) p).fields
                    current.fields)
              (matches p))

    unfoldable pub update_target : ImportPrompt → Option Saved
    unfolding matches
    update_target p = only (matches p)

    unfoldable pub starts_unticked : PreviewRow → Bool
    unfolding is_duplicate
    starts_unticked row = is_duplicate row.prompt || is_given row.flag

    unfoldable pub ticked : (toggled : List ℕ) → PreviewRow → ℕ → Bool
    unfolding starts_unticked
    ticked toggled row index = same (starts_unticked row) (member_of toggled index)

    abbrev pub sent_for : Option Saved → ImportPrompt → ImportPrompt
    sent_for none p = p
    sent_for (some current) p = reapply_conversions to_lower to_upper (current_of current) p

    unfoldable pub will_send : (updating : List ℕ) → ImportPrompt → ℕ → ImportPrompt
    unfolding is_changed update_target
    will_send updating p index =
        if member_of updating index && is_changed p then sent_for (update_target p) p else p

    unfoldable pub updates : (updating : List ℕ) → PreviewRow → ℕ → Bool
    unfolding will_send
    updates updating row index =
        member_of updating index
        && is_changed row.prompt
        && is_present (update_target row.prompt)
        && not (is_present (import_problem (will_send updating row.prompt index)))

    unfoldable pub included : (toggled updating : List ℕ) → PreviewRow → ℕ → Bool
    unfolding ticked
    included toggled updating row index =
        ticked toggled row index
        && not (member_of updating index)
        && not (is_present (import_problem row.prompt))

-- `filter` with the index, from `index` on.
abbrev pub filter_from : (PreviewRow → ℕ → Bool) → ℕ → List PreviewRow → List PreviewRow
filter_from p index [] = []
filter_from p index (row ∷ rows) =
    let rest = filter_from p (index + 1) rows in if p row index then row ∷ rest else rest
