-- ===== src/Library/Moving/Laws.antt =====
-- What the Undo of a move brings back.
use prompt_maker_studio.Base.{
  ◌==◌, if◌then◌else◌, ==_iff, Bool-cases, false_ne_true, false_of_not, All, Text, ℕ, ◌≡◌, refl,
  sym, ap, ap₂, ◌∙◌, subst, ◌⊎◌, inl, inr, true, false, ◌||◌, Option, none, some, List, [], ◌∷◌,
  map, arith,
}
use prompt_maker_studio.Library.Prompts.{Prompt, or_empty, selected_prompts, has_id, replace}
use prompt_maker_studio.Library.Moving.{
  folder_text, send_folders, show_answer, add_moved, Batch, move_targets, move_selected, undo_move,
}

-- The answers name the prompt that was asked for, in the folder that it was asked into.
abbrev pub IsFiled : Text → Prompt → Prompt → Type 0
IsFiled folder p u = (u.id ≡ p.id) × (folder_text u ≡ folder)

abbrev put : Prompt → Prompt → Prompt
put u q = if q.id == u.id then u else q

abbrev after : Option Prompt → Prompt → Prompt
after none q = q
after (some u) q = put u q

-- What the loop makes of one prompt of the list, and which prompts it moves.
abbrev one : (Text → Prompt → Option Prompt) → (Prompt → Text) → List Prompt → Prompt → Prompt
one a g [] q = q
one a g (p ∷ ps) q = one a g ps (after (a (g p) p) q)

abbrev moved_by : (Text → Prompt → Option Prompt) → (Prompt → Text) → List Prompt → List Prompt
moved_by a g [] = []
moved_by a g (p ∷ ps) = add_moved (a (g p) p) p (moved_by a g ps)

map-replace :
    (f : Prompt → Prompt) (u : Prompt) (ps : List Prompt)
    → map f (replace u ps) ≡ map (λ q. f (put u q)) ps
unfolding replace
map-replace f u [] = refl
map-replace f u (p ∷ ps) = ap (λ r. f (put u p) ∷ r) (map-replace f u ps)

map-same : (ps : List Prompt) → map (λ q. q) ps ≡ ps
map-same [] = refl
map-same (p ∷ ps) = ap (λ r. p ∷ r) (map-same ps)

-- What was moved, and the list shown.
abbrev Sent : Type 0
Sent = List Prompt × Option (List Prompt)

answer-one :
    (a : Text → Prompt → Option Prompt) (g : Prompt → Text) (t : Prompt) (ts ps : List Prompt)
    (o : Option Prompt)
    → ((qs : List Prompt)
        → send_folders a g ts (some qs) ≡ (moved_by a g ts, some (map (one a g ts) qs)))
    → ◌≡◌ {A = Sent}
        (
          add_moved o t (send_folders a g ts (show_answer o (some ps))).0,
          (send_folders a g ts (show_answer o (some ps))).1,
        )
        (add_moved o t (moved_by a g ts), some (map (λ q. one a g ts (after o q)) ps))
answer-one a g t ts ps none rest = rest ps
answer-one a g t ts ps (some u) rest =
    ap (λ r. (t ∷ r.0, r.1)) (rest (replace u ps))
    ∙ ap (λ r. (t ∷ moved_by a g ts, some r)) (map-replace (one a g ts) u ps)

send_folders-one :
    (a : Text → Prompt → Option Prompt) (g : Prompt → Text) (ts ps : List Prompt)
    → send_folders a g ts (some ps) ≡ (moved_by a g ts, some (map (one a g ts) ps))
unfolding send_folders
send_folders-one a g [] ps = ap (λ r. ([], some r)) (sym (map-same ps))
send_folders-one a g (t ∷ ts) ps =
    answer-one a g t ts ps (a (g t) t) (λ qs. send_folders-one a g ts qs)

-- The targets are prompts of the list: one with the same id is the same prompt.
abbrev pub IsKnown : List Prompt → Prompt → Type 0
IsKnown ts q = All (λ t. (q.id == t.id ≡ false) ⊎ (q ≡ t)) ts

put-id : (u q : Prompt) (id : ℕ) → u.id ≡ id → (put u q).id ≡ q.id
put-id u q id h = elim (Bool-cases (q.id == u.id)) [
  | inl hit ↦ subst (λ b. (if b then u else q).id ≡ q.id) (sym hit) (sym ((==_iff q.id u.id).0 hit))
  | inr miss ↦ subst (λ b. (if b then u else q).id ≡ q.id) (sym miss) refl
]

IsKnown-add_moved :
    (o : Option Prompt) (t q : Prompt) (mv : List Prompt)
    → (q.id == t.id ≡ false) ⊎ (q ≡ t)
    → IsKnown mv q
    → IsKnown (add_moved o t mv) q
IsKnown-add_moved none t q mv here h = h
IsKnown-add_moved (some u) t q mv here h = (here, h)

-- The prompt `r` has the id of `q`, and the folder of `q'` unless it was moved.
abbrev IsMoved : Prompt → List Prompt → Prompt → Prompt → Type 0
IsMoved q mv q' r = (r.id ≡ q.id) × ((folder_text r ≡ folder_text q') ⊎ (has_id mv q.id ≡ true))

-- The answer for `t`, and then the rest of the loop.
IsMoved-answer :
    (o : Option Prompt) (f : Text) (t q q' : Prompt) (mv : List Prompt) (rest : Prompt → Prompt)
    → ((u : Prompt) → o ≡ some u → IsFiled f t u)
    → q'.id ≡ q.id
    → ((r : Prompt) → r.id ≡ q.id → IsMoved q mv r (rest r))
    → IsMoved q (add_moved o t mv) q' (rest (after o q'))
IsMoved-answer none f t q q' mv rest filed same_id h = h q' same_id
IsMoved-answer (some u) f t q q' mv rest filed same_id h = elim (Bool-cases (q'.id == u.id)) [
  | inl hit ↦
      let is_t : t.id ≡ q.id = sym (filed u refl).0 ∙ sym ((==_iff q'.id u.id).0 hit) ∙ same_id in
      ((h (put u q') (put-id u q' t.id (filed u refl).0 ∙ same_id)).0, inr (rw is_t (ground arith)))
  | inr miss ↦
      let kept = h q' same_id in
      subst (λ b. IsMoved q (t ∷ mv) q' (rest (if b then u else q'))) (sym miss)
        (kept.0, elim kept.1 [ inl same_folder ↦ inl same_folder | inr later ↦ inr (ground arith) ])
]

module _ (a : Text → Prompt → Option Prompt) (g : Prompt → Text) (q : Prompt) where
  IsKnown-moved_by : (ts : List Prompt) → IsKnown ts q → IsKnown (moved_by a g ts) q
  IsKnown-moved_by [] h = tt
  IsKnown-moved_by (t ∷ ts) (here, h) =
      IsKnown-add_moved (a (g t) t) t q (moved_by a g ts) here (IsKnown-moved_by ts h)

  one-IsMoved :
      (ts : List Prompt) (q' : Prompt)
      → ((f : Text) (p u : Prompt) → a f p ≡ some u → IsFiled f p u)
      → q'.id ≡ q.id
      → IsMoved q (moved_by a g ts) q' (one a g ts q')
  one-IsMoved [] q' law same_id = (same_id, inl refl)
  one-IsMoved (t ∷ ts) q' law same_id =
      IsMoved-answer (a (g t) t) (g t) t q q' (moved_by a g ts) (one a g ts) (law (g t) t) same_id
        (λ r same. one-IsMoved ts r law same)

-- Undoing puts every prompt that was moved back into its folder.
one-undone :
    (b : Text → Prompt → Prompt) (mv : List Prompt) (q q' : Prompt)
    → ((f : Text) (p : Prompt) → IsFiled f p (b f p))
    → IsKnown mv q
    → q'.id ≡ q.id
    → (folder_text q' ≡ folder_text q) ⊎ (has_id mv q.id ≡ true)
    → let r = one (λ f p. some (b f p)) folder_text mv q' in
      (r.id ≡ q.id) × (folder_text r ≡ folder_text q)
one-undone b [] q q' law known same_id (inl same_folder) = (same_id, same_folder)
one-undone b [] q q' law known same_id (inr moved) = absurd (false_ne_true moved)
one-undone b (p ∷ mv) q q' law (here, known) same_id h =
    let u = b (folder_text p) p in
    let filed = law (folder_text p) p in
    let differs : (q'.id == u.id) ≡ false → (p.id == q.id) ≡ false = λ miss.
      false_of_not (p.id == q.id) (λ t. false_ne_true (
        sym miss ∙ (==_iff q'.id u.id).1 (same_id ∙ sym ((==_iff p.id q.id).0 t) ∙ sym filed.0))) in
    let id_after = put-id u q' p.id filed.0 ∙ same_id in
    one-undone b mv q (put u q') law known id_after (elim (Bool-cases (q'.id == u.id)) [
      | inl hit ↦
          let is_p : q.id == p.id ≡ true =
            (==_iff q.id p.id).1 (sym same_id ∙ (==_iff q'.id u.id).0 hit ∙ filed.0) in
          elim here [
            | inl other ↦ absurd (false_ne_true (sym other ∙ is_p))
            | inr q_is_p ↦ inl (
                subst (λ c. folder_text (if c then u else q') ≡ folder_text q) (sym hit)
                  (filed.1 ∙ ap folder_text (sym q_is_p)))
          ]
      | inr miss ↦
          subst (λ c. (folder_text (if c then u else q') ≡ folder_text q) ⊎ (has_id mv q.id ≡ true))
            (sym miss)
            (elim h [
              | inl same_folder ↦ inl same_folder
              | inr moved ↦ inr (ap (λ c. c || has_id mv q.id) (sym (differs miss)) ∙ moved)
            ])
    ])

abbrev pub placed : Prompt → ℕ × Text
placed p = (p.id, folder_text p)

ones_undone :
    (a : Text → Prompt → Option Prompt) (b : Text → Prompt → Prompt) (g : Prompt → Text)
    (ts ps : List Prompt)
    → ((f : Text) (p u : Prompt) → a f p ≡ some u → IsFiled f p u)
    → ((f : Text) (p : Prompt) → IsFiled f p (b f p))
    → All (IsKnown ts) ps
    → map placed
        (map (one (λ f p. some (b f p)) folder_text (moved_by a g ts)) (map (one a g ts) ps))
      ≡ map placed ps
ones_undone a b g ts [] law_a law_b h = refl
ones_undone a b g ts (q ∷ ps) law_a law_b (known, h) =
    let moved = one-IsMoved a g q ts q law_a refl in
    let back =
      one-undone b (moved_by a g ts) q (one a g ts q) law_b (IsKnown-moved_by a g q ts known)
        moved.0 moved.1 in
    ap₂ (λ n r. n ∷ r) (ap₂ (λ i f. (i, f)) back.0 back.1) (ones_undone a b g ts ps law_a law_b h)

abbrev sent : Batch → Sent
sent b = (b.moved, b.prompts)

move_selected-sent :
    (a : Text → Prompt → Option Prompt) (folder : Text) (batch : Batch) (t : Prompt)
    (ts ps : List Prompt)
    → batch.batch_busy ≡ false
    → batch.prompts ≡ some ps
    → selected_prompts batch.selected ps ≡ t ∷ ts
    → sent (move_selected a folder batch) ≡ send_folders a (λ p. folder) (t ∷ ts) (some ps)
unfolding move_selected
move_selected-sent a folder batch t ts ps idle shown targets =
    ap
      (λ c. sent (
        if c
        then batch
        else move_targets a folder (selected_prompts batch.selected (or_empty batch.prompts))
            batch))
      idle
    ∙ ap (λ o. sent (move_targets a folder (selected_prompts batch.selected (or_empty o)) batch))
        shown
    ∙ ap (λ l. sent (move_targets a folder l batch)) targets
    ∙ ap (λ o. send_folders a (λ p. folder) (t ∷ ts) o) shown

-- Undo after moving the selection: when the list is shown, no other move is under way, something is
-- selected, the targets are the prompts of the list with their ids, every answer is the prompt asked
-- for in the folder asked for, and every request of the Undo succeeds, then every prompt of the list
-- is in the folder of before and in its place, whichever requests of the move have failed.
pub undo_move-move_selected :
    (a : Text → Prompt → Option Prompt) (b : Text → Prompt → Prompt) (folder : Text) (batch : Batch)
    (t : Prompt) (ts ps : List Prompt)
    → batch.batch_busy ≡ false
    → batch.prompts ≡ some ps
    → selected_prompts batch.selected ps ≡ t ∷ ts
    → All (IsKnown (t ∷ ts)) ps
    → ((f : Text) (p u : Prompt) → a f p ≡ some u → IsFiled f p u)
    → ((f : Text) (p : Prompt) → IsFiled f p (b f p))
    → map placed (or_empty (undo_move (λ f p. some (b f p)) (move_selected a folder batch)).prompts)
      ≡ map placed ps
unfolding undo_move
undo_move-move_selected a b folder batch t ts ps idle shown targets known law_a law_b =
    let undone : Sent → List (ℕ × Text) =
      λ r. map placed (or_empty (send_folders (λ f p. some (b f p)) folder_text r.0 r.1).1) in
    let moved = moved_by a (λ p. folder) (t ∷ ts) in
    let list = map (one a (λ p. folder) (t ∷ ts)) ps in
    ap undone (
      move_selected-sent a folder batch t ts ps idle shown targets
      ∙ send_folders-one a (λ p. folder) (t ∷ ts) ps)
    ∙ ap (λ (r : Sent). map placed (or_empty r.1))
        (send_folders-one (λ f p. some (b f p)) folder_text moved list)
    ∙ ones_undone a b (λ p. folder) (t ∷ ts) ps law_a law_b known
