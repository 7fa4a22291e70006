-- ===== src/Import/Examples.antt =====
-- Tests of the CSV reader and of the cuts of a long section, and their theorems at concrete values.
use prompt_maker_studio.Base.{filter, concat, text, is_space, ◌≡◌, refl, [], ◌∷◌, map, arith}
use prompt_maker_studio.Import.{csv_rows, is_filled}
use prompt_maker_studio.Sections.Variables.{split_variables}
use prompt_maker_studio.Import.SplitText.{split_text}
use prompt_maker_studio.Import.SplitText.Laws.{concat-split_text}
use prompt_maker_studio.Import.RoundTrip.{Row, cells, csv_text, csv_rows-csv_text}

csv_test :
    csv_rows (text "a,\"b \"\"c\"\"\"\r\n,\nd")
    ≡ (text "a" ∷ text "b \"c\"" ∷ []) ∷ (text "d" ∷ []) ∷ []
unfolding csv_rows prompt_maker_studio.Import.csv_step is_filled is_space
csv_test = refl

abbrev header : Row
header = record { first = text "Name"; others = text "Prompt" ∷ [] }

abbrev one_row : Row
one_row = record { first = text "Plan, short"; others = text "Say \"hi\"" ∷ [] }

csv_rows-csv_text_example :
    csv_rows (csv_text header (one_row ∷ [])) ≡ filter is_filled (map cells (header ∷ one_row ∷ []))
csv_rows-csv_text_example = csv_rows-csv_text header (one_row ∷ [])

split_test :
    (split_text 8 (text "ab\n\ncdefgh") ≡ text "ab\n\n" ∷ text "cdefgh" ∷ [])
    × (split_text 4 (text "ab{{c}}d") ≡ text "ab" ∷ text "{{c}}" ∷ text "d" ∷ [])
unfolding split_text prompt_maker_studio.Import.SplitText.keep_pair
    prompt_maker_studio.Import.SplitText.around_span prompt_maker_studio.Import.SplitText.inside
    prompt_maker_studio.Import.SplitText.spans_from split_variables
    prompt_maker_studio.Scan.match_all prompt_maker_studio.Sections.Variables.variable_at
    prompt_maker_studio.Import.SplitText.at_paragraph
    prompt_maker_studio.Import.SplitText.last_paragraph
    prompt_maker_studio.Import.SplitText.is_paragraph
    prompt_maker_studio.Sections.Variables.identifier is_space
    prompt_maker_studio.Sections.Chars.is_name_start prompt_maker_studio.Sections.Chars.is_name_char
split_test = (refl, refl)

concat-split_text_example : concat (split_text 4 (text "ab{{c}}d")) ≡ text "ab{{c}}d"
concat-split_text_example = concat-split_text 4 (text "ab{{c}}d") (omega arith)
