-- ===== src/Sections/Tags/Laws.antt =====
-- Which names `unbalancedTags` reports.
use prompt_maker_studio.Base.{
  subst, IsDistinct-snoc, push_new-cons, text_eq_refl, inr, text_eq_iff, inl, same, ℕ, zero, suc,
  ◌+◌, ◌≡◌, refl, ap, ◌∙◌, Bool, true, false, not, ◌&&◌, ◌==◌, if◌then◌else◌, List, [], ◌∷◌, map,
  arith, Text, text_eq, filter, includes, IsDistinct, push_new, Bool-cases,
}
use prompt_maker_studio.Scan.{Match, match_all}
use prompt_maker_studio.Sections.Tags.{
  TagGroups, Balance, pos, negsuc, increment, decrement, is_zero, Counts, tag_at, count_tag,
  count_tags, unbalanced_tags,
}

abbrev pos_part : Balance → ℕ
pos_part (pos n) = n
pos_part (negsuc n) = 0

abbrev neg_part : Balance → ℕ
neg_part (pos n) = 0
neg_part (negsuc n) = suc n

abbrev balance_of : Counts → Text → Balance
balance_of [] name = pos 0
balance_of ((k, b) ∷ counts) name = if text_eq k name then b else balance_of counts name

abbrev change : Bool → Balance → Balance
change closing b = if closing then decrement b else increment b

abbrev keys : Counts → List Text
keys counts = map (λ e. e.0) counts

-- How often a name is opened (`false`) or closed (`true`) among the matches.
abbrev pub occurrences : Bool → Text → List (Match TagGroups) → ℕ
occurrences closing name [] = 0
occurrences closing name (m ∷ ms) =
    (if text_eq m.group.name name && same closing m.group.closing then 1 else 0)
    + occurrences closing name ms

balance_of-count_tag :
    (g : TagGroups) (counts : Counts) (name : Text)
    → balance_of (count_tag g counts) name ≡ (
        if text_eq g.name name
        then change g.closing (balance_of counts name)
        else balance_of counts name)
unfolding count_tag
balance_of-count_tag g [] name = refl
balance_of-count_tag g ((k, b) ∷ counts) name = elim (Bool-cases (text_eq k g.name)) [
  | inl same_key ↦ rw (same_key, ← (text_eq_iff k g.name).0 same_key) (ground arith)
  | inr other ↦ ground (
    arith,
    text_eq_iff k name,
    text_eq_iff g.name name,
    text_eq_refl k,
    balance_of-count_tag g counts name,
  )
]

change_parts :
    (closing : Bool) (b : Balance)
    → pos_part (change closing b) + neg_part b + (if closing then 1 else 0)
      ≡ neg_part (change closing b) + pos_part b + (if closing then 0 else 1)
change_parts true (pos zero) = refl
change_parts true (pos (suc n)) = omega arith
change_parts true (negsuc n) = omega arith
change_parts false (pos n) = omega arith
change_parts false (negsuc zero) = refl
change_parts false (negsuc (suc n)) = omega arith

count_tag_parts :
    (g : TagGroups) (counts : Counts) (name : Text)
    → pos_part (balance_of (count_tag g counts) name)
        + neg_part (balance_of counts name)
        + (if text_eq g.name name && same true g.closing then 1 else 0)
      ≡ neg_part (balance_of (count_tag g counts) name)
        + pos_part (balance_of counts name)
        + (if text_eq g.name name && same false g.closing then 1 else 0)
count_tag_parts g counts name =
    rw (balance_of-count_tag g counts name)
      (by_name (text_eq g.name name) g.closing (balance_of counts name))
  where
    by_name :
        (here closing : Bool) (b : Balance)
        → pos_part (if here then change closing b else b)
            + neg_part b
            + (if here && same true closing then 1 else 0)
          ≡ neg_part (if here then change closing b else b)
            + pos_part b
            + (if here && same false closing then 1 else 0)
    by_name true true b = change_parts true b
    by_name true false b = change_parts false b
    by_name false _ b = omega arith

count_tags_parts :
    (ms : List (Match TagGroups)) (counts : Counts) (name : Text)
    → pos_part (balance_of (count_tags counts ms) name)
        + neg_part (balance_of counts name)
        + occurrences true name ms
      ≡ neg_part (balance_of (count_tags counts ms) name)
        + pos_part (balance_of counts name)
        + occurrences false name ms
unfolding count_tags
count_tags_parts [] counts name = omega arith
count_tags_parts (m ∷ ms) counts name = omega (
  arith,
  count_tag_parts m.group counts name,
  count_tags_parts ms (count_tag m.group counts) name,
)

-- The keys stay distinct, in the order of their first appearance.
IsDistinct-push_new : (xs : List Text) (x : Text) → IsDistinct xs → IsDistinct (push_new xs x)
IsDistinct-push_new xs x d = elim (Bool-cases (includes xs x)) [
  | inl old ↦ rw old d
  | inr new ↦ rw new (IsDistinct-snoc xs x d new)
]

count_tag-other :
    (g : TagGroups) (k : Text) (b : Balance) (counts : Counts)
    → text_eq k g.name ≡ false
    → count_tag g ((k, b) ∷ counts) ≡ (k, b) ∷ count_tag g counts
unfolding count_tag
count_tag-other g k b counts h = rw h

keys-count_tag :
    (g : TagGroups) (counts : Counts) → keys (count_tag g counts) ≡ push_new (keys counts) g.name
unfolding count_tag
keys-count_tag g [] = refl
keys-count_tag g ((k, b) ∷ counts) = elim (Bool-cases (text_eq k g.name)) [
  | inl found ↦ rw found
  | inr other ↦
      ap keys (count_tag-other g k b counts other)
      ∙ ap (k ∷◌) (keys-count_tag g counts)
      ∙ push_new-cons k (keys counts) g.name other
]

count_tags-IsDistinct :
    (counts : Counts) (ms : List (Match TagGroups))
    → IsDistinct (keys counts)
    → IsDistinct (keys (count_tags counts ms))
unfolding count_tags
count_tags-IsDistinct counts [] d = d
count_tags-IsDistinct counts (m ∷ ms) d =
    count_tags-IsDistinct (count_tag m.group counts) ms
      (rw (keys-count_tag m.group counts) (IsDistinct-push_new (keys counts) m.group.name d))

abbrev open_names : Counts → List Text
open_names counts = map (λ e. e.0) (filter (λ e. not (is_zero e.1)) counts)

open_names-new :
    (counts : Counts) (name : Text)
    → includes (keys counts) name ≡ false
    → includes (open_names counts) name ≡ false
open_names-new [] name h = refl
open_names-new ((k, b) ∷ counts) name h = elim (Bool-cases (is_zero b)) [
  | inl zero_here ↦ rw zero_here (open_names-new counts name (ground arith))
  | inr more ↦ rw more (ground (arith, open_names-new counts name))
]

includes-open_names :
    (counts : Counts) (name : Text)
    → IsDistinct (keys counts)
    → includes (open_names counts) name ≡ not (is_zero (balance_of counts name))
includes-open_names [] name d = refl
includes-open_names ((k, b) ∷ counts) name (new, d) = elim (Bool-cases (text_eq k name)) [
  | inl here ↦
      let gone = subst (λ n. includes (keys counts) n ≡ false) ((text_eq_iff k name).0 here) new in
      elim (Bool-cases (is_zero b)) [
        | inl balanced ↦ rw (balanced, here, balanced) (open_names-new counts name gone)
        | inr more ↦ rw (more, here, more)
      ]
  | inr other ↦ elim (Bool-cases (is_zero b)) [
    | inl balanced ↦ rw (balanced, other) (includes-open_names counts name d)
    | inr more ↦ rw (more, other) (includes-open_names counts name d)
  ]
]

open_names-IsDistinct :
    (counts : Counts) → IsDistinct (keys counts) → IsDistinct (open_names counts)
open_names-IsDistinct [] d = tt
open_names-IsDistinct ((k, b) ∷ counts) (new, d) = elim (Bool-cases (is_zero b)) [
  | inl zero_here ↦ rw zero_here (open_names-IsDistinct counts d)
  | inr more ↦ rw more (open_names-new counts k new, open_names-IsDistinct counts d)
]

is_zero_parts : (b : Balance) → is_zero b ≡ (pos_part b == neg_part b)
is_zero_parts (pos zero) = refl
is_zero_parts (pos (suc n)) = ground arith
is_zero_parts (negsuc n) = ground arith

-- A name is reported exactly when it is opened and closed a different number of times.
pub includes-unbalanced_tags :
    (content name : Text)
    → includes (unbalanced_tags content) name
      ≡ not (
          occurrences false name (match_all tag_at content)
          == occurrences true name (match_all tag_at content))
unfolding unbalanced_tags
includes-unbalanced_tags content name =
    let ms = match_all tag_at content in
    includes-open_names (count_tags [] ms) name (count_tags-IsDistinct [] ms tt)
    ∙ ap not (
        is_zero_parts (balance_of (count_tags [] ms) name)
        ∙ ground (arith, count_tags_parts ms [] name))

-- No name is reported twice.
pub unbalanced_tags-IsDistinct : (content : Text) → IsDistinct (unbalanced_tags content)
unfolding unbalanced_tags
unbalanced_tags-IsDistinct content =
    open_names-IsDistinct _ (count_tags-IsDistinct [] (match_all tag_at content) tt)
