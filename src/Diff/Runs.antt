-- ===== src/Diff/Runs.antt =====
-- Merging tokens into runs: the text of each side stays, and neighbours differ in type.
use prompt_maker_studio.Base.{
  if◌then◌else◌, Bool-cases, All, Text, ◌≡◌, refl, sym, ap, ◌∙◌, inl, inr, Bool, true, false, not,
  List, [], ◌∷◌, ◌++◌, append-nil, append_assoc,
}
use prompt_maker_studio.Diff.{
  Kind, added, removed, unchanged, DiffToken, same_kind, push_run, merge_runs,
}
use prompt_maker_studio.Diff.Tokens.{IsNotEmpty}

-- The text of the tokens whose type passes the test.
abbrev pub side : (Kind → Bool) → List DiffToken → Text
side p [] = []
side p (t ∷ ts) = if p t.type then t.text ++ side p ts else side p ts

abbrev pub in_old : Kind → Bool
in_old k = not (same_kind k added)

abbrev pub in_new : Kind → Bool
in_new k = not (same_kind k removed)

eq_of_same_kind : (a b : Kind) → same_kind a b ≡ true → a ≡ b
eq_of_same_kind added added h = refl
eq_of_same_kind removed removed h = refl
eq_of_same_kind unchanged unchanged h = refl
eq_of_same_kind added removed h = cc
eq_of_same_kind added unchanged h = cc
eq_of_same_kind removed added h = cc
eq_of_same_kind removed unchanged h = cc
eq_of_same_kind unchanged added h = cc
eq_of_same_kind unchanged removed h = cc

side-cons :
    (p : Kind → Bool) (t : DiffToken) (ts : List DiffToken)
    → side p (t ∷ ts) ≡ (if p t.type then t.text else []) ++ side p ts
side-cons p t ts = elim (Bool-cases (p t.type)) [ inl e ↦ rw e | inr e ↦ rw e ]

side-push_run :
    (p : Kind → Bool) (rs : List DiffToken) (t : DiffToken)
    → side p (push_run rs t) ≡ side p rs ++ side p (t ∷ [])
unfolding push_run
side-push_run p [] t = refl
side-push_run p (r ∷ []) t = elim (Bool-cases (same_kind r.type t.type)) [
  | inl grown ↦
      rw (grown, ← eq_of_same_kind r.type t.type grown)
        (elim (Bool-cases (p r.type)) [ inl e ↦ rw e (simp append-nil) | inr e ↦ rw e ])
  | inr started ↦ rw started (
      side-cons p r (t ∷ [])
      ∙ ap (λ u. u ++ side p (t ∷ []))
          (sym (append-nil (if p r.type then r.text else [])) ∙ sym (side-cons p r [])))
]
side-push_run p (r ∷ q ∷ rs) t =
    side-cons p r (push_run (q ∷ rs) t)
    ∙ ap (λ u. (if p r.type then r.text else []) ++ u) (side-push_run p (q ∷ rs) t)
    ∙ sym (append_assoc _ (side p (q ∷ rs)) (side p (t ∷ [])))
    ∙ ap (λ u. u ++ side p (t ∷ [])) (sym (side-cons p r (q ∷ rs)))

pub side-merge_runs :
    (p : Kind → Bool) (rs ts : List DiffToken) → side p (merge_runs rs ts) ≡ side p rs ++ side p ts
unfolding merge_runs
side-merge_runs p rs [] = sym (append-nil (side p rs))
side-merge_runs p rs (t ∷ ts) =
    side-merge_runs p (push_run rs t) ts
    ∙ ap (λ u. u ++ side p ts) (side-push_run p rs t)
    ∙ append_assoc (side p rs) (side p (t ∷ [])) (side p ts)
    ∙ ap (λ u. side p rs ++ u)
        (ap (λ u. u ++ side p ts) (side-cons p t [] ∙ append-nil _) ∙ sym (side-cons p t ts))

-- No two neighbours have the same type.
abbrev AlternatesAfter : Kind → List DiffToken → Type 0
AlternatesAfter k [] = Unit
AlternatesAfter k (r ∷ rs) = (same_kind k r.type ≡ false) × AlternatesAfter r.type rs

abbrev pub Alternates : List DiffToken → Type 0
Alternates [] = Unit
Alternates (r ∷ rs) = AlternatesAfter r.type rs

AlternatesAfter-push_run :
    (k : Kind) (r : DiffToken) (rs : List DiffToken) (t : DiffToken)
    → AlternatesAfter k (r ∷ rs)
    → AlternatesAfter k (push_run (r ∷ rs) t)
unfolding push_run
AlternatesAfter-push_run k r [] t (h, _) = elim (Bool-cases (same_kind r.type t.type)) [
  | inl grown ↦ rw grown (h, tt)
  | inr started ↦ rw started (h, (started, tt))
]
AlternatesAfter-push_run k r (q ∷ rs) t (h, later) =
    (h, AlternatesAfter-push_run r.type q rs t later)

Alternates-push_run :
    (rs : List DiffToken) (t : DiffToken) → Alternates rs → Alternates (push_run rs t)
unfolding push_run
Alternates-push_run [] t h = tt
Alternates-push_run (r ∷ []) t h = elim (Bool-cases (same_kind r.type t.type)) [
  | inl grown ↦ rw grown tt
  | inr started ↦ rw started (started, tt)
]
Alternates-push_run (r ∷ q ∷ rs) t h = AlternatesAfter-push_run r.type q rs t h

pub Alternates-merge_runs : (rs ts : List DiffToken) → Alternates rs → Alternates (merge_runs rs ts)
unfolding merge_runs
Alternates-merge_runs rs [] h = h
Alternates-merge_runs rs (t ∷ ts) h =
    Alternates-merge_runs (push_run rs t) ts (Alternates-push_run rs t h)

abbrev pub HasText : DiffToken → Type 0
HasText t = IsNotEmpty t.text

HasText-append : (s t : Text) → IsNotEmpty s → IsNotEmpty (s ++ t)
HasText-append [] t h = cc
HasText-append (c ∷ s) t h = refl

HasText-push_run :
    (rs : List DiffToken) (t : DiffToken) → All HasText rs → HasText t → All HasText (push_run rs t)
unfolding push_run
HasText-push_run [] t h k = (k, tt)
HasText-push_run (r ∷ []) t (h, _) k = elim (Bool-cases (same_kind r.type t.type)) [
  | inl grown ↦ rw grown (HasText-append r.text t.text h, tt)
  | inr started ↦ rw started (h, (k, tt))
]
HasText-push_run (r ∷ q ∷ rs) t (h, later) k = (h, HasText-push_run (q ∷ rs) t later k)

pub HasText-merge_runs :
    (rs ts : List DiffToken) → All HasText rs → All HasText ts → All HasText (merge_runs rs ts)
unfolding merge_runs
HasText-merge_runs rs [] h k = h
HasText-merge_runs rs (t ∷ ts) h (k, ks) =
    HasText-merge_runs (push_run rs t) ts (HasText-push_run rs t h k) ks
