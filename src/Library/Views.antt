-- ===== src/Library/Views.antt =====
-- lib/libraryViews.ts (under frontend/src): the views of the library and their addresses. An address
-- is its parameters; the browser writes and reads their encoding.
use prompt_maker_studio.Base.{
  if◌then◌else◌, Text, text, text_eq, ◌≡◌, refl, ◌≢◌, Option, none, some, List, [], ◌∷◌,
}

pub data LibraryView : Type 0 where
  all_prompts favorites unfiled : LibraryView
  folder_view : (folder : Text) → LibraryView

abbrev pub Params : Type 0
Params = List (Text × Text)

-- `libraryHref`, behind its path.
unfoldable pub library_href : LibraryView → Params
library_href all_prompts = []
library_href favorites = (text "view", text "favorites") ∷ []
library_href unfiled = (text "view", text "unfiled") ∷ []
library_href (folder_view folder) = (text "folder", folder) ∷ []

-- `params.get(name)`, the first value or none.
unfoldable pub get_param : Params → Text → Option Text
get_param [] name = none
get_param ((k, v) ∷ params) name = if text_eq k name then some v else get_param params name

unfoldable pub view_of : Option Text → LibraryView
view_of none = all_prompts
view_of (some v) =
    if text_eq v (text "favorites")
    then favorites
    else if text_eq v (text "unfiled")
    then unfiled
    else all_prompts

-- `if (folder)`: an empty folder counts as none.
unfoldable pub view_by_folder : Option Text → LibraryView → LibraryView
view_by_folder none other = other
view_by_folder (some []) other = other
view_by_folder (some (c ∷ s)) other = folder_view (c ∷ s)

unfoldable pub view_from_params : Params → LibraryView
unfolding view_by_folder view_of get_param
view_from_params params =
    view_by_folder (get_param params (text "folder")) (view_of (get_param params (text "view")))

abbrev pub IsNamed : LibraryView → Type 0
IsNamed (folder_view folder) = folder ≢ []
IsNamed _ = Unit

-- The address of a view leads back to it, but for a folder without a name.
pub view_from_params-library_href :
    (v : LibraryView) → IsNamed v → view_from_params (library_href v) ≡ v
unfolding view_from_params library_href
view_from_params-library_href all_prompts h = refl
view_from_params-library_href favorites h = refl
view_from_params-library_href unfiled h = refl
view_from_params-library_href (folder_view []) h = absurd (h refl)
view_from_params-library_href (folder_view (c ∷ s)) h = refl
