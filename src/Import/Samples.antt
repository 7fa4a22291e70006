-- ===== src/Import/Samples.antt =====
-- Values that the tests and the examples of an import share.
use prompt_maker_studio.Base.{
  ltb, leb, if◌then◌else◌, both, all, Text, text, ◌+◌, ◌-◌, ◌≡◌, refl, ap₂, true, false, ◌&&◌, none,
  some, [], ◌∷◌, ◌++◌, map, map-append, arith,
}
use prompt_maker_studio.Import.Json.{string}
use prompt_maker_studio.Import.Items.{ImportItem}
use prompt_maker_studio.Import.Validate.{ImportPrompt}

-- The cases of ASCII letters.
abbrev pub upper : Text → Text
upper s = map (λ c. if leb 97 c && leb c 122 then c - 32 else c) s

abbrev pub lower : Text → Text
lower s = map (λ c. if leb 65 c && leb c 90 then c + 32 else c) s

pub upper_joins : (s t : Text) → upper (s ++ 95 ∷ t) ≡ upper s ++ 95 ∷ upper t
upper_joins s t = map-append (λ c. if leb 97 c && leb c 122 then c - 32 else c) s (95 ∷ t)

pub upper_caseless : (s : Text) → all (λ c. ltb c 58) s ≡ true → upper s ≡ s
upper_caseless [] h = refl
upper_caseless (c ∷ s) h =
    let (here, later) = both (ltb c 58) (all (λ d. ltb d 58) s) h in
    ap₂ (λ d t. d ∷ t) (ground arith) (upper_caseless s later)

abbrev pub tone : ImportItem
tone = record {
  type = string (text "text");
  required = none;
  description = some none;
  example = none;
  options = none;
}

abbrev pub plan : ImportPrompt
plan = record {
  name = text "Plan";
  folder = none;
  fields = record { name = text "Role"; content = text "Be [my tone]" } ∷ [];
  is_favorite = true;
  variable_metadata = some ((text "my_tone", tone) ∷ []);
}

abbrev pub notes : ImportPrompt
notes = record {
  name = text "Notes";
  folder = none;
  fields = record { name = text "Task"; content = text "Sum up" } ∷ [];
  is_favorite = false;
  variable_metadata = none;
}
