-- ===== src/Library/Searching.antt =====
-- features/library/useLibrary.ts: what the library shows of its prompts, and the search box, whose
-- query is kept in the address. `view_key` names the view that the page shows.
pub mod Laws
use prompt_maker_studio.Base.{
  ltb, leb, ◌==◌, if◌then◌else◌, ==_iff, ==_refl, Bool-cases, Option-cases, both, either,
  eq_of_some, same, none_ne_some, false_ne_true, true_of_not, false_of_not, length, get_elem?, take,
  drop, filter, any, all, find?, All, concat, slice, drop-drop, length-append, take-append-drop,
  slice-append-drop, length-take, length-drop, take-append-length, drop-append-length,
  filter-append, length-filter-le, drop-all, slice-empty, concat-append, length-reverse, Text, text,
  text_eq, text_eq_refl, eq_of_text_eq, text_eq_iff, text_eq_comm, includes, is_space, trim_start,
  trim_end, trim, is_empty, join, take_while, drop_while, strip, length-strip, eq_of_strip,
  strip-append, length-drop_while, length-trim_start, push_new, push_all, set_of, first_uses,
  IsDistinct, includes-append, filter-filter, push_all-first_uses, set_of-first_uses,
  includes-first_uses, first_uses-IsDistinct, IsDistinct-snoc, push_new-cons, digits, decimal,
  decimal-is_digit, decimal_inj, trim_idem, ℕ, zero, suc, ◌+◌, ◌-◌, ◌*◌, ◌/◌, ◌%◌, ◌≤◌, ◌<◌, max,
  min, ◌≡◌, refl, sym, ap, ap₂, ◌∙◌, subst, fun_ext, ◌≢◌, ◌↔◌, ◌⊎◌, inl, inr, Bool, true, false,
  not, ◌&&◌, ◌||◌, Option, none, some, some-injective, List, [], ◌∷◌, ◌++◌, map, append-nil,
  append_assoc, map-append, arith,
}
use prompt_maker_studio.Library.Prompts.{Prompt, or_empty}
use prompt_maker_studio.Library.Views.{LibraryView, all_prompts, favorites, unfiled, folder_view}

abbrev pub is_in_folder : Text → Prompt → Bool
is_in_folder folder p = elim p.folder [ none ↦ false | some f ↦ text_eq f folder ]

-- `!p.folder`
abbrev pub has_no_folder : Prompt → Bool
has_no_folder p = elim p.folder [ none ↦ true | some f ↦ is_empty f ]

unfoldable pub in_view : LibraryView → Option (List Prompt) → List Prompt
in_view all_prompts prompts = or_empty prompts
in_view favorites prompts = filter (λ p. p.is_favorite) (or_empty prompts)
in_view unfiled prompts = filter has_no_folder (or_empty prompts)
in_view (folder_view folder) prompts = filter (is_in_folder folder) (or_empty prompts)

-- `search`, and `written`: the queries that the page wrote into the address in this view.
pub record SearchBox : Type 0 where
  pub search : Text
  pub written_view : Text
  pub queries : List Text

-- `setSearch`, with its `replaceState`.
unfoldable pub set_search : Text → SearchBox → SearchBox
set_search value b = record b { search = value; queries = b.queries ++ value ∷ [] }

-- `queries.at(-1)` is the query.
abbrev pub is_last : List Text → Text → Bool
is_last [] query = false
is_last (q ∷ []) query = text_eq q query
is_last (q ∷ r ∷ qs) query = is_last (r ∷ qs) query

abbrev pub take_echo : Text → SearchBox → SearchBox
take_echo query b = if is_last b.queries query then record b { queries = query ∷ [] } else b

-- The effect that runs when the view or the query of the address has changed.
unfoldable pub address_changed : (view_key url_query : Text) → SearchBox → SearchBox
address_changed view_key url_query b =
    if text_eq b.written_view view_key && includes b.queries url_query
    then take_echo url_query b
    else record { search = url_query; written_view = view_key; queries = [] }
