-- ===== src/Sections/Chars.antt =====
-- The character classes of the regular expressions of lib/sections.ts, and `PromptField` of
-- types/prompt.ts.
use prompt_maker_studio.Base.{ℕ, Bool, ◌&&◌, ◌||◌, leb, ◌==◌, Text}

-- [A-Za-z_]
unfoldable pub is_name_start : ℕ → Bool
is_name_start c = (leb 65 c && leb c 90) || (leb 97 c && leb c 122) || c == 95

-- [A-Za-z0-9_-]
unfoldable pub is_name_char : ℕ → Bool
unfolding is_name_start
is_name_char c = is_name_start c || (leb 48 c && leb c 57) || c == 45

-- [A-Za-z0-9_ -]
unfoldable pub is_section_char : ℕ → Bool
unfolding is_name_char
is_section_char c = is_name_char c || c == 32

pub record PromptField : Type 0 where
  pub name : Text
  pub content : Text
