-- ===== src/Diff/Examples.antt =====
-- Tests of the word diff, and its theorems at one pair of texts.
use prompt_maker_studio.Base.{
  inr, inl, length, All, Text, text, is_space, ◌≤◌, ◌≡◌, refl, List, [], ◌∷◌,
}
use prompt_maker_studio.Diff.{
  added, removed, unchanged, DiffToken, token, tokenize, diff_tokens, diff_words, cell, lcs_table,
}
use prompt_maker_studio.Diff.Runs.{side, in_old, in_new, Alternates, HasText}
use prompt_maker_studio.Diff.Longest.{IsSubsequence, kept, kept-diff_tokens_longest}
use prompt_maker_studio.Diff.Words.{sides-diff_words, diff_words-runs}

abbrev before : Text
before = text "write {{topic}} now"

abbrev after : Text
after = text "write {{topic}} today"

tokens_test :
    tokenize before ≡ text "write" ∷ text " " ∷ text "{{topic}}" ∷ text " " ∷ text "now" ∷ []
unfolding tokenize prompt_maker_studio.Scan.split_from prompt_maker_studio.Scan.match_all
    prompt_maker_studio.Diff.separator_at is_space prompt_maker_studio.Diff.after_placeholder
    prompt_maker_studio.Diff.not_brace
tokens_test = refl

diff_test :
    diff_words before after
    ≡ token unchanged (text "write {{topic}} ")
      ∷ token removed (text "now")
      ∷ token added (text "today")
      ∷ []
unfolding diff_words tokenize prompt_maker_studio.Scan.split_from prompt_maker_studio.Scan.match_all
    prompt_maker_studio.Diff.separator_at is_space prompt_maker_studio.Diff.after_placeholder
    prompt_maker_studio.Diff.not_brace prompt_maker_studio.Diff.merge_runs diff_tokens
    prompt_maker_studio.Diff.push_run
diff_test = refl

abbrev olds : List Text
olds = text "a" ∷ text "b" ∷ text "c" ∷ []

abbrev news : List Text
news = text "b" ∷ text "a" ∷ text "c" ∷ []

sides-diff_words_example :
    (side in_old (diff_words before after) ≡ before)
    × (side in_new (diff_words before after) ≡ after)
sides-diff_words_example = sides-diff_words before after

diff_words-runs_example :
    Alternates (diff_words before after) × All HasText (diff_words before after)
diff_words-runs_example = diff_words-runs before after

kept-diff_tokens_longest_example :
    IsSubsequence (kept (diff_tokens olds news)) olds
    × IsSubsequence (kept (diff_tokens olds news)) news
    × (2 ≤ length (kept (diff_tokens olds news)))
kept-diff_tokens_longest_example =
    kept-diff_tokens_longest olds news (text "a" ∷ text "c" ∷ []) (inl (refl, inr (inl (refl, tt))))
      (inr (inl (refl, inl (refl, tt))))
