-- ===== src/Import/Dialog/Outcome.antt =====
-- What an import leaves behind: every prompt sent is in the library or stays for retry.
use prompt_maker_studio.Base.{
  if◌then◌else◌, Option-cases, length, ℕ, ◌+◌, ◌≡◌, refl, sym, ap, ◌∙◌, inl, inr, Option, none,
  some, List, [], ◌∷◌, ◌++◌, append-nil, append_assoc, arith,
}
use prompt_maker_studio.Import.Validate.{ImportPrompt}
use prompt_maker_studio.Import.Dialog.{Saved}
use prompt_maker_studio.Import.Dialog.Values.{map_option}
use prompt_maker_studio.Import.Dialog.Run.{
  Replies, SentPrompts, or_kept, create_step, send_creates, update_step, UpdateRequest,
}

-- The prompts whose requests succeed and fail, when each is answered by itself.
abbrev pub kept_one : Option Saved → List Saved
kept_one none = []
kept_one (some saved) = saved ∷ []

abbrev pub lost_one : Option Saved → ImportPrompt → List ImportPrompt
lost_one none p = p ∷ []
lost_one (some saved) p = []

abbrev pub succeeded : (ℕ → ImportPrompt → Option Saved) → ℕ → List ImportPrompt → List Saved
succeeded reply n [] = []
succeeded reply n (p ∷ ps) = kept_one (reply n p) ++ succeeded reply (n + 1) ps

abbrev pub refused : (ℕ → ImportPrompt → Option Saved) → ℕ → List ImportPrompt → List ImportPrompt
refused reply n [] = []
refused reply n (p ∷ ps) = lost_one (reply n p) p ++ refused reply (n + 1) ps

pub length-succeeded-refused :
    (reply : ℕ → ImportPrompt → Option Saved) (n : ℕ) (ps : List ImportPrompt)
    → length (succeeded reply n ps) + length (refused reply n ps) ≡ length ps
length-succeeded-refused reply n [] = refl
length-succeeded-refused reply n (p ∷ ps) = elim (Option-cases (reply n p)) [
  | inl failing ↦ rw failing (omega (arith, length-succeeded-refused reply (n + 1) ps))
  | inr (saved, saving) ↦ rw saving (omega (arith, length-succeeded-refused reply (n + 1) ps))
]

-- How the locals of a loop end, from how they began.
abbrev pub IsAnswered :
    (kept : List Saved) (lost : List ImportPrompt) → SentPrompts → SentPrompts → Type 0
IsAnswered kept lost st end =
    (end.created ≡ st.created ++ kept)
    × (end.failed ≡ st.failed ++ lost)
    × (end.progress ≡ length end.created + length end.failed)

pub then-IsAnswered :
    (kept kept_later : List Saved) (lost lost_later : List ImportPrompt) (st mid end : SentPrompts)
    → IsAnswered kept lost st mid
    → IsAnswered kept_later lost_later mid end
    → IsAnswered (kept ++ kept_later) (lost ++ lost_later) st end
then-IsAnswered kept kept_later lost lost_later st mid end (a, b, _) (c, d, e) = (
  c ∙ (ap (λ l. l ++ kept_later) a ∙ append_assoc st.created kept kept_later),
  d ∙ (ap (λ l. l ++ lost_later) b ∙ append_assoc st.failed lost lost_later),
  e,
)

module _ (server : Replies) where
  -- The reply to a prompt that is created: a favorite flag that fails changes nothing.
  abbrev pub create_reply : ℕ → ImportPrompt → Option Saved
  create_reply n p =
      map_option (λ saved. if p.is_favorite then or_kept (server.favor n saved) saved else saved)
        (server.create n p)

  create_step-IsAnswered :
      (n : ℕ) (p : ImportPrompt) (st : SentPrompts)
      → IsAnswered
          (kept_one (create_reply n p))
          (lost_one (create_reply n p) p)
          st
          (create_step server n p st)
  unfolding create_step
  create_step-IsAnswered n p st = elim (Option-cases (server.create n p)) [
    | inl failing ↦ rw failing (sym (append-nil st.created), refl, refl)
    | inr (saved, saving) ↦ rw saving (refl, sym (append-nil st.failed), refl)
  ]

  pub send_creates-IsAnswered :
      (n : ℕ) (ps : List ImportPrompt) (st : SentPrompts)
      → st.progress ≡ length st.created + length st.failed
      → IsAnswered
          (succeeded create_reply n ps)
          (refused create_reply n ps)
          st
          (send_creates server n ps st)
  unfolding send_creates
  send_creates-IsAnswered n [] st h = (sym (append-nil st.created), sym (append-nil st.failed), h)
  send_creates-IsAnswered n (p ∷ ps) st h =
      let mid = create_step server n p st in
      let first = create_step-IsAnswered n p st in
      then-IsAnswered (kept_one (create_reply n p)) (succeeded create_reply (n + 1) ps)
        (lost_one (create_reply n p) p) (refused create_reply (n + 1) ps) st mid
        (send_creates server (n + 1) ps mid) first (send_creates-IsAnswered (n + 1) ps mid first.2)

  pub update_step-IsAnswered :
      (n : ℕ) (request : UpdateRequest) (p : ImportPrompt) (st : SentPrompts)
      → IsAnswered
          (kept_one (server.update n request))
          (lost_one (server.update n request) p)
          st
          (update_step server n request p st)
  unfolding update_step
  update_step-IsAnswered n request p st = elim (Option-cases (server.update n request)) [
    | inl failing ↦ rw failing (sym (append-nil st.created), refl, refl)
    | inr (saved, saving) ↦ rw saving (refl, sym (append-nil st.failed), refl)
  ]
