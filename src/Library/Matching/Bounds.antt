-- ===== src/Library/Matching/Bounds.antt =====
-- Where the excerpt of a search starts and ends.
use prompt_maker_studio.Base.{ltb, length, slice, Text, ℕ, ◌≤◌, ◌≡◌, false, ◌&&◌, ◌++◌}
use prompt_maker_studio.Library.Matching.{Excerpt, dots}

-- Inside the span, at neither of its ends.
abbrev IsOut : (from_at to_at at : ℕ) → Type 0
IsOut from_at to_at at = (ltb from_at at && ltb at to_at) ≡ false

-- How a stretch of a text lies in it.
abbrev IsStretch : ℕ × ℕ → ℕ → Type 0
IsStretch (start, end_at) most = (start ≤ end_at) × (end_at ≤ most)

-- The three parts of an excerpt, which follow on each other in the text from `lo` to `hi`.
abbrev pub IsCutFrom : Text → Excerpt → (lo start end_at hi : ℕ) → Type 0
IsCutFrom s e lo start end_at hi =
    (lo ≤ start)
    × (start ≤ end_at)
    × (end_at ≤ hi)
    × (hi ≤ length s)
    × (e.before ≡ dots (ltb 0 lo) ++ slice s lo start)
    × (e.match ≡ slice s start end_at)
    × (e.after ≡ slice s end_at hi ++ dots (ltb hi (length s)))
