-- ===== src/Sections/Tags.antt =====
-- Tags typed inside a section: /<(\/?)([A-Za-z_][A-Za-z0-9_-]*)>/g and `unbalancedTags`.
pub mod Laws
use prompt_maker_studio.Base.{
  ℕ, zero, suc, ◌+◌, ◌-◌, Bool, true, false, not, ◌==◌, if◌then◌else◌, List, [], ◌∷◌, ◌++◌, map,
  Option, none, some, Text, text, text_eq, length, take, strip, filter,
}
use prompt_maker_studio.Scan.{Hit, Match, match_all}
use prompt_maker_studio.Sections.Variables.{identifier, ◌>>=◌}

-- The two groups: whether there is a slash, and the name.
pub record TagGroups : Type 0 where
  pub closing : Bool
  pub name : Text

abbrev slash : Text → Bool × Text
slash [] = (false, [])
slash (c ∷ s) = if c == 47 then (true, s) else (false, c ∷ s)

unfoldable pub tag_at : Text → Option (Hit TagGroups)
tag_at s = do
  opened ← strip (text "<") s
  found ← identifier (slash opened).1
  rest ← strip (text ">") found.1
  some (record {
    token = take (length s - length rest) s;
    group = record { closing = (slash opened).0; name = found.0 };
  })

-- A signed count: `less n` is -(n + 1).
pub data Balance : Type 0 where
  pos : ℕ → Balance
  negsuc : ℕ → Balance

abbrev pub increment : Balance → Balance
increment (pos n) = pos (suc n)
increment (negsuc zero) = pos 0
increment (negsuc (suc n)) = negsuc n

abbrev pub decrement : Balance → Balance
decrement (pos zero) = negsuc 0
decrement (pos (suc n)) = pos n
decrement (negsuc n) = negsuc (suc n)

abbrev pub is_zero : Balance → Bool
is_zero (pos zero) = true
is_zero (pos (suc n)) = false
is_zero (negsuc n) = false

-- A `Map` in insertion order.
abbrev pub Counts : Type 0
Counts = List (Text × Balance)

-- `counts.set(name, (counts.get(name) ?? 0) + change)`
unfoldable pub count_tag : TagGroups → Counts → Counts
count_tag g [] = (g.name, if g.closing then decrement (pos 0) else increment (pos 0)) ∷ []
count_tag g ((k, b) ∷ counts) =
    if text_eq k g.name
    then (k, if g.closing then decrement b else increment b) ∷ counts
    else (k, b) ∷ count_tag g counts

unfoldable pub count_tags : Counts → List (Match TagGroups) → Counts
count_tags counts [] = counts
count_tags counts (m ∷ ms) = count_tags (count_tag m.group counts) ms

unfoldable pub unbalanced_tags : Text → List Text
unfolding count_tags count_tag
unbalanced_tags content =
    map (λ e. e.0) (filter (λ e. not (is_zero e.1)) (count_tags [] (match_all tag_at content)))
