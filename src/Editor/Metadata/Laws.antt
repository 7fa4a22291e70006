-- ===== src/Editor/Metadata/Laws.antt =====
-- A snapshot of a snapshot is that snapshot, so that one read back from storage compares equal.
use prompt_maker_studio.Base.{
  Bool-cases, false_ne_true, filter, All, Text, text_eq, text_eq_comm, includes, trim, is_empty,
  set_of, first_uses, IsDistinct, set_of-first_uses, first_uses-IsDistinct, trim_idem, ◌≡◌, refl,
  sym, ap, ◌∙◌, inl, inr, Bool, true, false, not, Option, none, some, List, [], ◌∷◌, map, arith,
}
use prompt_maker_studio.Sections.Chars.{PromptField}
use prompt_maker_studio.Editor.Metadata.{
  Item, Metadata, or_no_options, choice_list, if_text, if_true, if_any, stored_item, text_lt,
  insert_entry, sort_entries, snapshot,
}

module _ (p : Text → Bool) where
  filter-All : (xs : List Text) → All (λ x. p x ≡ true) xs → filter p xs ≡ xs
  filter-All [] h = refl
  filter-All (x ∷ xs) (here, h) = rw (here, filter-All xs h)

  All-filter_self : (xs : List Text) → All (λ x. p x ≡ true) (filter p xs)
  All-filter_self [] = tt
  All-filter_self (x ∷ xs) = elim (Bool-cases (p x)) [
    | inl keep ↦ rw keep (keep, All-filter_self xs)
    | inr cut ↦ rw cut (All-filter_self xs)
  ]

module _ (P : Text → Type 0) where
  All-filter : (p : Text → Bool) (xs : List Text) → All P xs → All P (filter p xs)
  All-filter p [] h = tt
  All-filter p (x ∷ xs) (here, h) = elim (Bool-cases (p x)) [
    | inl keep ↦ rw keep (here, All-filter p xs h)
    | inr cut ↦ rw cut (All-filter p xs h)
  ]

  All-first_uses : (xs : List Text) → All P xs → All P (first_uses xs)
  unfolding first_uses
  All-first_uses [] h = tt
  All-first_uses (x ∷ xs) (here, h) = (here, All-filter _ (first_uses xs) (All-first_uses xs h))

All-map-trim : (xs : List Text) → All (λ x. trim x ≡ x) (map trim xs)
All-map-trim [] = tt
All-map-trim (x ∷ xs) = (trim_idem x, All-map-trim xs)

map-trim-All : (xs : List Text) → All (λ x. trim x ≡ x) xs → map trim xs ≡ xs
map-trim-All [] h = refl
map-trim-All (x ∷ xs) (here, h) = rw (here, map-trim-All xs h)

not_first :
    (x : Text) (xs : List Text) → includes xs x ≡ false → filter (λ y. not (text_eq x y)) xs ≡ xs
not_first x [] h = refl
not_first x (y ∷ xs) h = elim (Bool-cases (text_eq y x)) [
  | inl e ↦ absurd (false_ne_true (sym h ∙ rw e))
  | inr e ↦ rw (text_eq_comm x y, e, not_first x xs (rw e at h))
]

first_uses_all : (xs : List Text) → IsDistinct xs → first_uses xs ≡ xs
unfolding first_uses
first_uses_all [] d = refl
first_uses_all (x ∷ xs) (new, d) = rw (first_uses_all xs d, not_first x xs new)

-- The choices of an input are trimmed, not blank and listed once, and so stay as they are.
pub choice_list_idem :
    (options : Option (List Text)) → choice_list (some (choice_list options)) ≡ choice_list options
unfolding choice_list
choice_list_idem options =
    let shown = filter (λ s. not (is_empty s)) (map trim (or_no_options options)) in
    let listed = set_of-first_uses shown in
    let trimmed : All (λ x. trim x ≡ x) (set_of shown) =
      rw listed
        (All-first_uses _ shown (All-filter _ _ _ (All-map-trim (or_no_options options)))) in
    let filled : All (λ x. not (is_empty x) ≡ true) (set_of shown) =
      rw listed (All-first_uses _ shown (All-filter_self _ (map trim (or_no_options options)))) in
    let once : IsDistinct (set_of shown) = rw listed (first_uses-IsDistinct shown) in
    ap (λ xs. set_of (filter (λ s. not (is_empty s)) xs)) (map-trim-All (set_of shown) trimmed)
    ∙ (ap set_of (filter-All _ (set_of shown) filled)
        ∙ (set_of-first_uses (set_of shown) ∙ first_uses_all (set_of shown) once))

choice_list-if_any : (xs : List Text) → choice_list (if_any xs) ≡ choice_list (some xs)
unfolding choice_list
choice_list-if_any [] = refl
choice_list-if_any (x ∷ xs) = refl

if_text_idem : (o : Option Text) → if_text (if_text o) ≡ if_text o
if_text_idem none = refl
if_text_idem (some []) = refl
if_text_idem (some (c ∷ s)) = refl

if_true_idem : (o : Option Bool) → if_true (if_true o) ≡ if_true o
if_true_idem none = refl
if_true_idem (some true) = refl
if_true_idem (some false) = refl

stored_item_idem : (i : Item) → stored_item (stored_item i) ≡ stored_item i
unfolding stored_item
stored_item_idem i = rw (
  if_text_idem i.description,
  if_true_idem i.required,
  if_text_idem i.example,
  choice_list-if_any (choice_list i.options),
  choice_list_idem i.options,
)

text_lt_asym : (s t : Text) → text_lt s t ≡ true → text_lt t s ≡ false
text_lt_asym [] [] h = refl
text_lt_asym [] (d ∷ t) h = refl
text_lt_asym (c ∷ s) [] h = cc
text_lt_asym (c ∷ s) (d ∷ t) h = ground (arith, text_lt_asym s t)

-- No entry stands before one with a smaller key.
abbrev IsSorted : Metadata → Type 0
IsSorted [] = Unit
IsSorted (e ∷ []) = Unit
IsSorted (e ∷ f ∷ es) = (text_lt f.0 e.0 ≡ false) × IsSorted (f ∷ es)

insert_entry-IsSorted :
    (e : Text × Item) (es : Metadata) → IsSorted es → IsSorted (insert_entry e es)
insert_entry-IsSorted e [] h = tt
insert_entry-IsSorted e (f ∷ []) h = elim (Bool-cases (text_lt f.0 e.0)) [
  | inl later ↦ rw later (text_lt_asym f.0 e.0 later, tt)
  | inr now ↦ rw now (now, tt)
]
insert_entry-IsSorted e (f ∷ g ∷ es) (fg, h) = elim (Bool-cases (text_lt f.0 e.0)) [
  | inl later ↦ elim (Bool-cases (text_lt g.0 e.0)) [
    | inl too ↦ rw (later, too) (fg, rw too at (insert_entry-IsSorted e (g ∷ es) h))
    | inr here ↦ rw (later, here) (text_lt_asym f.0 e.0 later, (here, h))
  ]
  | inr now ↦ rw now (now, (fg, h))
]

sort_entries-IsSorted : (es : Metadata) → IsSorted (sort_entries es)
unfolding sort_entries
sort_entries-IsSorted [] = tt
sort_entries-IsSorted (e ∷ es) =
    insert_entry-IsSorted e (sort_entries es) (sort_entries-IsSorted es)

sort_entries_sorted : (es : Metadata) → IsSorted es → sort_entries es ≡ es
unfolding sort_entries
sort_entries_sorted [] h = refl
sort_entries_sorted (e ∷ []) h = refl
sort_entries_sorted (e ∷ f ∷ es) (ef, h) = rw (sort_entries_sorted (f ∷ es) h, ef)

-- Sorting looks at keys only.
module _ (f : Item → Item) where
  abbrev each : Metadata → Metadata
  each = map (λ e. (e.0, f e.1))

  each-IsSorted : (es : Metadata) → IsSorted es → IsSorted (each es)
  each-IsSorted [] h = tt
  each-IsSorted (e ∷ []) h = tt
  each-IsSorted (e ∷ g ∷ es) (eg, h) = (eg, each-IsSorted (g ∷ es) h)

  each_idem : ((i : Item) → f (f i) ≡ f i) → (es : Metadata) → each (each es) ≡ each es
  each_idem h [] = refl
  each_idem h (e ∷ es) = rw (h e.1, each_idem h es)

pub snapshot_idem :
    (fields : List PromptField) (metadata : Metadata)
    → snapshot (snapshot fields metadata).fields (snapshot fields metadata).metadata
      ≡ snapshot fields metadata
unfolding snapshot
snapshot_idem fields metadata =
    let es = sort_entries metadata in
    rw (
      sort_entries_sorted _ (each-IsSorted stored_item es (sort_entries-IsSorted metadata)),
      each_idem stored_item stored_item_idem es,
    )
