-- ===== src/Editor/Requests/Conflicts.antt =====
-- One editor that is the only one to change its prompt: each request carries the stamp of the
-- version that the server has, so the editor is never in conflict with itself.
use prompt_maker_studio.Base.{
  Option-cases, eq_of_some, same, none_ne_some, length, Text, ◌≡◌, refl, sym, ap, ◌∙◌, subst, inl,
  inr, false, Option, none, some, List, [], ◌∷◌, arith,
}
use prompt_maker_studio.Api.{Failure, Outcome, answered, failed}
use prompt_maker_studio.Editor.State.{
  SavedPrompt, Task, save_task, rename_task, move_task, mark_task, restore_task, Request, Editor,
  stamp,
}
use prompt_maker_studio.Editor.Actions.{show_notice, show_sections}
use prompt_maker_studio.Editor.Requests.{
  begin_task, begin_with, send, settle_task, settle_request, settle_with, is_conflict, report_error,
}
use prompt_maker_studio.Editor.Requests.Events.{
  Event, World, Server, IsReply, exchange, reply_to, step, run, drain, carry_out,
}
use prompt_maker_studio.Editor.Requests.Keeps.{Keeps, handle-Keeps}

-- The editor shows the prompt that the server has, is in no conflict, and a request under way is
-- made against that prompt.
abbrev pub InStep : World → Type 0
InStep w =
    (w.editor.prompt ≡ some w.server)
    × (w.editor.conflict ≡ false)
    × ((r : Request) → w.editor.request ≡ some r → r.last_updated_at ≡ stamp w.server)

Keeps-InStep :
    (a b : Editor) (s : SavedPrompt)
    → Keeps a b
    → InStep (record { editor = b; server = s })
    → InStep (record { editor = a; server = s })
unfolding Keeps
Keeps-InStep a b s (same_prompt, same_request, no_conflict) (p, c, r) =
    (same_prompt ∙ p, no_conflict c, λ q h. r q (sym same_request ∙ h))

send-InStep :
    (ts : List Task) (e : Editor) (s : SavedPrompt)
    → InStep (record { editor = e; server = s })
    → InStep (record { editor = send (some s) ts e; server = s })
send-InStep [] e s h = h
send-InStep (t ∷ ts) e s (p, c, r) =
    (p, c, λ q h. ap (λ x. x.last_updated_at) (sym (eq_of_some _ _ h)))

begin-InStep :
    (o : Option Request) (e : Editor) (s : SavedPrompt)
    → InStep (record { editor = e; server = s })
    → InStep (record { editor = begin_with o e; server = s })
begin-InStep none e s h =
    subst (λ p. InStep (record { editor = send p e.queue e; server = s })) (sym h.0)
      (send-InStep e.queue e s h)
begin-InStep (some r) e s h = h

begin_task-InStep :
    (e : Editor) (s : SavedPrompt)
    → InStep (record { editor = e; server = s })
    → InStep (record { editor = begin_task e; server = s })
unfolding begin_task
begin_task-InStep e s h = begin-InStep e.request e s h

request_over :
    (t : Task) (o : Outcome SavedPrompt) (e : Editor)
    → ((settle_request t o e).request ≡ e.request) × ((settle_request t o e).queue ≡ e.queue)
unfolding settle_request report_error show_notice show_sections
request_over (save_task fs m n) (answered p) e = (refl, refl)
request_over (rename_task n) (answered p) e = (refl, refl)
request_over (move_task f) (answered p) e = (refl, refl)
request_over (mark_task n) (answered p) e = (refl, refl)
request_over (restore_task id n) (answered p) e = (refl, refl)
request_over (save_task fs m n) (failed f) e = ground arith
request_over (rename_task n) (failed f) e = ground arith
request_over (move_task d) (failed f) e = ground arith
request_over (mark_task n) (failed f) e = ground arith
request_over (restore_task id n) (failed f) e = ground arith

settle_answered :
    (t : Task) (p : SavedPrompt) (e : Editor)
    → ((settle_request t (answered p) e).prompt ≡ some p)
      × (e.conflict ≡ false → (settle_request t (answered p) e).conflict ≡ false)
unfolding settle_request show_notice show_sections
settle_answered (save_task fs m n) p e = (refl, λ h. refl)
settle_answered (rename_task n) p e = (refl, λ h. h)
settle_answered (move_task f) p e = (refl, λ h. h)
settle_answered (mark_task n) p e = (refl, λ h. h)
settle_answered (restore_task id n) p e = (refl, λ h. h)

settle_failed :
    (t : Task) (f : Failure) (e : Editor)
    → is_conflict f ≡ false
    → ((settle_request t (failed f) e).prompt ≡ e.prompt)
      × ((settle_request t (failed f) e).conflict ≡ e.conflict)
unfolding settle_request report_error show_notice
settle_failed (save_task fs m n) f e h = rw h (refl, refl)
settle_failed (rename_task n) f e h = rw h (refl, refl)
settle_failed (move_task d) f e h = rw h (refl, refl)
settle_failed (mark_task n) f e h = rw h (refl, refl)
settle_failed (restore_task id n) f e h = rw h (refl, refl)

-- The answer of the server, applied: the editor is in step with what the server has afterwards.
reply-InStep :
    (t : Task) (s : SavedPrompt) (reply : SavedPrompt × Outcome SavedPrompt) (e : Editor)
    → IsReply s reply
    → e.prompt ≡ some s
    → e.conflict ≡ false
    → ((settle_request t reply.1 e).prompt ≡ some reply.0)
      × ((settle_request t reply.1 e).conflict ≡ false)
reply-InStep t s reply e (inl (p, same)) has_prompt calm =
    let h = settle_answered t p e in rw same (h.0, h.1 calm)
reply-InStep t s reply e (inr (f, same, other)) has_prompt calm =
    let h = settle_failed t f e other in rw same (h.0 ∙ has_prompt, h.1 ∙ calm)

abbrev with_server : Editor → SavedPrompt → World
with_server e s = record { editor = e; server = s }

module _ (srv : Server) where
  exchange_idle : (w : World) → w.editor.request ≡ none → exchange srv w ≡ w
  unfolding exchange
  exchange_idle w h = ap (λ o. reply_to srv o w) h

  -- The request under way is answered.
  exchange_request :
      (w : World) (r : Request)
      → w.editor.request ≡ some r
      → exchange srv w
        ≡ with_server
            (settle_request r.task (srv.serve w.server r).1 (record (w.editor) { request = none }))
            (srv.serve w.server r).0
  unfolding exchange settle_task
  exchange_request w r h =
      ap (λ o. reply_to srv o w) h
      ∙ ap
          (λ o.
            with_server (settle_with o (srv.serve w.server r).1 w.editor) (srv.serve w.server r).0)
          h

  exchange-InStep : (w : World) → InStep w → InStep (exchange srv w)
  exchange-InStep w (p, c, stamped) = elim (Option-cases w.editor.request) [
    | inl idle ↦ subst InStep (sym (exchange_idle w idle)) (p, c, stamped)
    | inr (r, busy) ↦
        let e : Editor = record (w.editor) { request = none } in
        let reply = srv.serve w.server r in
        let h =
          reply-InStep r.task w.server reply e (srv.replies w.server r (stamped r busy)) p c in
        subst InStep (sym (exchange_request w r busy))
          (h.0, h.1, λ q is_q. absurd (none_ne_some (sym (request_over r.task reply.1 e).0 ∙ is_q)))
  ]

  module _ (to_upper : Text → Text) where
    step-InStep : (ev : Event) (w : World) → InStep w → InStep (step to_upper srv ev w)
    unfolding step
    step-InStep Event.answer w h = exchange-InStep w h
    step-InStep ev w h = elim (handle-Keeps to_upper ev w.editor) [
      | inl same ↦ Keeps-InStep _ w.editor w.server same h
      | inr begins ↦
          subst (λ e. InStep (with_server e w.server)) (sym begins)
            (begin_task-InStep w.editor w.server h)
    ]

    pub run-InStep : (evs : List Event) (w : World) → InStep w → InStep (run to_upper srv evs w)
    unfolding run
    run-InStep [] w h = h
    run-InStep (ev ∷ evs) w h = run-InStep evs (step to_upper srv ev w) (step-InStep ev w h)

  abbrev first : World → Task → Request
  first w t = record { task = t; id = w.server.id; last_updated_at = stamp w.server }

  -- The next task of the queue is sent.
  begin_sends :
      (w : World) (t : Task) (ts : List Task)
      → InStep w
      → w.editor.request ≡ none
      → w.editor.queue ≡ t ∷ ts
      → begin_task w.editor ≡ record (w.editor) { queue = ts; request = some (first w t) }
  unfolding begin_task
  begin_sends w t ts h idle full =
      ap (λ o. begin_with o w.editor) idle
      ∙ ap (λ p. send p w.editor.queue w.editor) h.0
      ∙ ap (λ q. send (some w.server) q w.editor) full

  -- One task is sent and answered.
  abbrev round : World → World
  round w = exchange srv (with_server (begin_task w.editor) w.server)

  round_lem :
      (w : World) (t : Task) (ts : List Task)
      → InStep w
      → w.editor.request ≡ none
      → w.editor.queue ≡ t ∷ ts
      → ((round w).server ≡ (srv.serve w.server (first w t)).0)
        × ((round w).editor.queue ≡ ts)
        × ((round w).editor.request ≡ none)
        × InStep (round w)
  round_lem w t ts h idle full =
      let sent : Editor = record (w.editor) { queue = ts; request = some (first w t) } in
      let w' = with_server sent w.server in
      let begun = begin_sends w t ts h idle full in
      let answers = exchange_request w' (first w t) refl in
      let over =
        request_over t (srv.serve w.server (first w t)).1 (record sent { request = none }) in
      let in_step : InStep w' =
        subst (λ e. InStep (with_server e w.server)) begun
          (begin_task-InStep w.editor w.server h) in
      subst
        (λ e.
          ((exchange srv (with_server e w.server)).server ≡ (srv.serve w.server (first w t)).0)
          × ((exchange srv (with_server e w.server)).editor.queue ≡ ts)
          × ((exchange srv (with_server e w.server)).editor.request ≡ none)
          × InStep (exchange srv (with_server e w.server)))
        (sym begun)
        (
          ap (λ v. v.server) answers,
          ap (λ v. v.editor.queue) answers ∙ over.1,
          ap (λ v. v.editor.request) answers ∙ over.0,
          exchange-InStep w' in_step,
        )

  -- A queue with nothing under way, sent to its end.
  pub drain-carry_out :
      (ts : List Task) (w : World)
      → InStep w
      → w.editor.request ≡ none
      → w.editor.queue ≡ ts
      → ((drain srv (length ts) w).server ≡ carry_out srv w.server ts)
        × ((drain srv (length ts) w).editor.queue ≡ [])
        × ((drain srv (length ts) w).editor.request ≡ none)
        × ((drain srv (length ts) w).editor.conflict ≡ false)
  unfolding drain carry_out
  drain-carry_out [] w (p, c, stamped) idle empty = (refl, empty, idle, c)
  drain-carry_out (t ∷ ts) w h idle full =
      let one = round_lem w t ts h idle full in
      let rest = drain-carry_out ts (round w) one.3 one.2 one.1 in
      (rest.0 ∙ ap (λ s. carry_out srv s ts) one.0, rest.1, rest.2, rest.3)
