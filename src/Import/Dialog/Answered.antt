-- ===== src/Import/Dialog/Answered.antt =====
-- What the whole handler of an import leaves behind.
use prompt_maker_studio.Base.{
  length, length-append, Text, ℕ, ℤ, ◌+◌, ◌≡◌, refl, sym, ap, ◌∙◌, subst, false, Option, none, some,
  List, [], ◌∷◌, ◌++◌, append-nil, arith,
}
use prompt_maker_studio.Import.Json.{ok}
use prompt_maker_studio.Import.Validate.{ImportPrompt}
use prompt_maker_studio.Import.Dialog.{
  Saved, PreviewRow, Titles, by_title, update_target, updates, included, filter_from,
}
use prompt_maker_studio.Import.Dialog.Values.{map_option}
use prompt_maker_studio.Import.Dialog.Run.{
  Replies, SentPrompts, DialogState, send_creates, update_step, update_request, send_updates,
  validated, retried, finish, nothing_sent, send_all, left_out, is_skipped, import_prompts,
}
use prompt_maker_studio.Import.Dialog.Outcome.{
  succeeded, refused, kept_one, lost_one, length-succeeded-refused, IsAnswered, then-IsAnswered,
  create_reply, send_creates-IsAnswered, update_step-IsAnswered,
}
use prompt_maker_studio.Import.Dialog.Targets.{
  HaveTargets, validated-HaveTitles, filter_updates-HaveTargets, titles-HaveTargets,
}

module _ (server : Replies) (to_lower to_upper : Text → Text) where
  abbrev pub reply_to : Option Saved → ℕ → ImportPrompt → Option Saved
  reply_to none n p = none
  reply_to (some current) n p = server.update n (update_request to_lower to_upper p current)

  -- The reply to a prompt that updates the only prompt of its title.
  abbrev pub update_reply : Titles → ℕ → ImportPrompt → Option Saved
  update_reply titles n p = reply_to (update_target to_lower to_upper titles p) n p

  send_updates_step :
      (titles : Titles) (n : ℕ) (p : ImportPrompt) (ps : List ImportPrompt) (st : SentPrompts)
      (current : Saved)
      → update_target to_lower to_upper titles p ≡ some current
      → send_updates server to_lower to_upper titles n (p ∷ ps) st
        ≡ send_updates server to_lower to_upper titles
            (n + 1)
            ps
            (update_step server n (update_request to_lower to_upper p current) p st)
  unfolding send_updates
  send_updates_step titles n p ps st current h = rw (h, send_updates)

  send_updates-IsAnswered :
      (titles : Titles) (n : ℕ) (ps : List ImportPrompt) (st : SentPrompts)
      → HaveTargets to_lower to_upper titles ps
      → st.progress ≡ length st.created + length st.failed
      → (end : SentPrompts) × (send_updates server to_lower to_upper titles n ps st ≡ some end)
        × IsAnswered
            (succeeded (update_reply titles) n ps)
            (refused (update_reply titles) n ps)
            st
            end
  unfolding send_updates
  send_updates-IsAnswered titles n [] st h k =
      (st, refl, (sym (append-nil st.created), sym (append-nil st.failed), k))
  send_updates-IsAnswered titles n (p ∷ ps) st ((current, target), h) k =
      let request = update_request to_lower to_upper p current in
      let mid = update_step server n request p st in
      let first =
        subst (λ o. IsAnswered (kept_one (reply_to o n p)) (lost_one (reply_to o n p) p) st mid)
          (sym target) (update_step-IsAnswered server n request p st) in
      let (end, sent, later) = send_updates-IsAnswered titles (n + 1) ps mid h first.2 in
      (
        end,
        send_updates_step titles n p ps st current target ∙ sent,
        then-IsAnswered (kept_one (update_reply titles n p))
            (succeeded (update_reply titles) (n + 1) ps) (lost_one (update_reply titles n p) p)
            (refused (update_reply titles) (n + 1) ps) st mid end first later,
      )

  -- The locals of both loops together.
  send_both :
      (titles : Titles) (to_create to_update : List ImportPrompt)
      → HaveTargets to_lower to_upper titles to_update
      → (end : SentPrompts) × (send_updates server to_lower to_upper titles 0 to_update
            (send_creates server 0 to_create nothing_sent)
          ≡ some end)
        × IsAnswered
            (succeeded (create_reply server) 0 to_create
              ++ succeeded (update_reply titles) 0 to_update)
            (refused (create_reply server) 0 to_create ++ refused (update_reply titles) 0 to_update)
            nothing_sent
            end
  send_both titles to_create to_update h =
      let mid = send_creates server 0 to_create nothing_sent in
      let first = send_creates-IsAnswered server 0 to_create nothing_sent refl in
      let (end, sent, later) = send_updates-IsAnswered titles 0 to_update mid h first.2 in
      (
        end,
        sent,
        then-IsAnswered (succeeded (create_reply server) 0 to_create)
            (succeeded (update_reply titles) 0 to_update)
            (refused (create_reply server) 0 to_create) (refused (update_reply titles) 0 to_update)
            nothing_sent mid end first later,
      )

  abbrev pub titles_of : List Saved → DialogState → Titles
  titles_of existing d = by_title to_lower to_upper d.session existing

  -- The rows that are created, and those that update.
  abbrev pub chosen_rows : List Saved → List PreviewRow → DialogState → List PreviewRow
  chosen_rows existing rows d =
      filter_from (included to_lower to_upper (titles_of existing d) d.toggled d.updating) 0 rows

  abbrev pub changed_rows : List Saved → List PreviewRow → DialogState → List PreviewRow
  changed_rows existing rows d =
      filter_from (updates to_lower to_upper (titles_of existing d) d.updating) 0 rows

  abbrev skipped_rows : List Saved → List PreviewRow → DialogState → List PreviewRow
  skipped_rows existing rows d =
      filter_from (is_skipped to_lower to_upper (titles_of existing d) d.toggled d.updating) 0 rows

  import_prompts-send_all :
      (existing : List Saved) (rows : List PreviewRow) (d : DialogState)
      (to_create to_update : List ImportPrompt)
      → validated to_lower to_upper (chosen_rows existing rows d) ≡ ok to_create
      → validated to_lower to_upper (changed_rows existing rows d) ≡ ok to_update
      → import_prompts server to_lower to_upper existing rows d
        ≡ send_all server to_lower to_upper
            (titles_of existing d)
            (length (skipped_rows existing rows d))
            (left_out to_lower to_upper (titles_of existing d) d.toggled d.updating rows)
            to_create
            to_update
            d
  unfolding import_prompts
  import_prompts-send_all existing rows d to_create to_update h k = rw (h, k, import_prompts)

  -- How the dialog stands once both lists have been sent.
  abbrev pub IsImported :
      Titles → (to_create to_update : List ImportPrompt) → DialogState → DialogState → Type 0
  IsImported titles to_create to_update d after =
      (after.session
        ≡ d.session
          ++ (succeeded (create_reply server) 0 to_create
              ++ succeeded (update_reply titles) 0 to_update))
      × (after.preview
          ≡ retried (
              refused (create_reply server) 0 to_create
              ++ refused (update_reply titles) 0 to_update))
      × (after.progress ≡ length to_create + length to_update)
      × (after.busy ≡ false)

  finish-IsImported :
      (titles : Titles) (to_create to_update : List ImportPrompt) (of duplicates : ℕ)
      (left_over : ℤ) (end : SentPrompts) (d : DialogState)
      → IsAnswered
          (succeeded (create_reply server) 0 to_create
            ++ succeeded (update_reply titles) 0 to_update)
          (refused (create_reply server) 0 to_create ++ refused (update_reply titles) 0 to_update)
          nothing_sent
          end
      → IsImported titles to_create to_update d (finish of duplicates left_over end d)
  unfolding finish
  finish-IsImported titles to_create to_update of duplicates left_over end d (made, lost, count) =
      let kept = succeeded (create_reply server) 0 to_create in
      let kept_later = succeeded (update_reply titles) 0 to_update in
      let gone = refused (create_reply server) 0 to_create in
      let gone_later = refused (update_reply titles) 0 to_update in
      (
        ap (λ l. d.session ++ l) made,
        ap retried lost,
        omega (
          arith,
          count,
          ap length made,
          ap length lost,
          length-append kept kept_later,
          length-append gone gone_later,
          length-succeeded-refused (create_reply server) 0 to_create,
          length-succeeded-refused (update_reply titles) 0 to_update,
        ),
        refl,
      )

-- Once the chosen rows of a preview, and those that update, have been validated, the import ends
-- whatever the server replies: the session has gained what the requests that succeeded gave, in the
-- order sent, and the preview holds exactly the prompts whose requests failed. A favorite flag that
-- fails loses nothing, and every prompt has been counted as sent.
pub import_prompts_answered :
    (server : Replies) (to_lower to_upper : Text → Text) (existing : List Saved)
    (rows : List PreviewRow) (d : DialogState) (to_create to_update : List ImportPrompt)
    → validated to_lower to_upper (chosen_rows server to_lower to_upper existing rows d)
      ≡ ok to_create
    → validated to_lower to_upper (changed_rows server to_lower to_upper existing rows d)
      ≡ ok to_update
    → (after : DialogState) × (import_prompts server to_lower to_upper existing rows d ≡ some after)
      × IsImported server to_lower to_upper
          (titles_of server to_lower to_upper existing d)
          to_create
          to_update
          d
          after
import_prompts_answered server to_lower to_upper existing rows d to_create to_update h k =
    let titles = titles_of server to_lower to_upper existing d in
    let changed = changed_rows server to_lower to_upper existing rows d in
    let targets =
      titles-HaveTargets to_lower to_upper titles changed to_update
        (validated-HaveTitles to_lower to_upper changed to_update k)
        (filter_updates-HaveTargets to_lower to_upper titles d.updating 0 rows) in
    let (end, sent, answered) =
      send_both server to_lower to_upper titles to_create to_update targets in
    let duplicates = length (skipped_rows server to_lower to_upper existing rows d) in
    let left_over = left_out to_lower to_upper titles d.toggled d.updating rows in
    (
      finish (length to_create) duplicates left_over end d,
      import_prompts-send_all server to_lower to_upper existing rows d to_create to_update h k
          ∙ ap (map_option (λ st. finish (length to_create) duplicates left_over st d)) sent,
      finish-IsImported server to_lower to_upper titles to_create to_update (length to_create)
          duplicates left_over end d answered,
    )
