-- ===== src/Sections/Names/Laws.antt =====
-- Normalised names.
use prompt_maker_studio.Base.{
  inr, inl, Bool-cases, append_assoc, ap₂, append-nil, both, ℕ, ◌≡◌, refl, sym, ap, ◌∙◌, true,
  false, not, List, [], ◌∷◌, ◌++◌, arith, Text, text, is_space, is_empty, join, all, All,
}
use prompt_maker_studio.Sections.Names.{words_from, flush, normalize_section_name}

abbrev pub HasNoSpace : Text → Type 0
HasNoSpace s = all (λ c. not (is_space c)) s ≡ true

abbrev pub IsWord : Text → Type 0
IsWord s = (is_empty s ≡ false) × HasNoSpace s

HasNoSpace-snoc : (s : Text) (c : ℕ) → HasNoSpace s → is_space c ≡ false → HasNoSpace (s ++ c ∷ [])
HasNoSpace-snoc [] c h e = rw e
HasNoSpace-snoc (d ∷ s) c h e =
    let (here, later) = both (not (is_space d)) (all (λ x. not (is_space x)) s) h in
    rw here (HasNoSpace-snoc s c later e)

flush-IsWord :
    (cur : Text) (ws : List Text) → HasNoSpace cur → All IsWord ws → All IsWord (flush cur ++ ws)
flush-IsWord [] ws h k = k
flush-IsWord (c ∷ cur) ws h k = ((refl, h), k)

words_from-IsWord : (cur s : Text) → HasNoSpace cur → All IsWord (words_from cur s)
unfolding words_from
words_from-IsWord cur [] h = rw append-nil at (flush-IsWord cur [] h tt)
words_from-IsWord cur (c ∷ s) h = elim (Bool-cases (is_space c)) [
  | inl space ↦ rw space (flush-IsWord cur (words_from [] s) h (words_from-IsWord [] s refl))
  | inr letter ↦ rw letter (words_from-IsWord (cur ++ c ∷ []) s (HasNoSpace-snoc cur c h letter))
]

words_from-letter :
    (cur : Text) (c : ℕ) (s : Text)
    → is_space c ≡ false
    → words_from cur (c ∷ s) ≡ words_from (cur ++ c ∷ []) s
unfolding words_from
words_from-letter cur c s h = rw h

-- A word is read to its end.
words_from-append :
    (cur w rest : Text) → HasNoSpace w → words_from cur (w ++ rest) ≡ words_from (cur ++ w) rest
words_from-append cur [] rest h = ap (λ u. words_from u rest) (sym (append-nil cur))
words_from-append cur (c ∷ w) rest h =
    let (here, later) = both (not (is_space c)) (all (λ x. not (is_space x)) w) h in
    let letter : is_space c ≡ false = ground arith in
    words_from-letter cur c (w ++ rest) letter
    ∙ words_from-append (cur ++ c ∷ []) w rest later
    ∙ ap (λ u. words_from u rest) (append_assoc cur (c ∷ []) w)

flush_word : (w : Text) → is_empty w ≡ false → flush w ≡ w ∷ []
flush_word [] h = cc
flush_word (c ∷ w) h = refl

words_from-join : (ws : List Text) → All IsWord ws → words_from [] (join (text " ") ws) ≡ ws
unfolding words_from is_space
words_from-join [] h = refl
words_from-join (w ∷ []) ((ne, word), _) =
    ap (words_from []) (sym (append-nil w)) ∙ words_from-append [] w [] word ∙ flush_word w ne
words_from-join (w ∷ v ∷ ws) ((ne, word), h) =
    words_from-append [] w (text " " ++ join (text " ") (v ∷ ws)) word
    ∙ ap₂ (λ a b. a ++ b) (flush_word w ne) (words_from-join (v ∷ ws) h)

-- Normalising a section name a second time changes nothing, so a stored name is stable.
pub normalize_section_name_idem :
    (name : Text)
    → normalize_section_name (normalize_section_name name) ≡ normalize_section_name name
unfolding normalize_section_name
normalize_section_name_idem name =
    ap (join (text " ")) (words_from-join (words_from [] name) (words_from-IsWord [] name refl))
