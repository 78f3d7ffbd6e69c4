-- ===== src/Composer/Sends.antt =====
-- The sends of a run of src/stores/composerStore.ts: their numbers, and what keeps a second one out.
pub mod Running
pub mod Once
use letschat.Common.{
  ℕ, ◌<◌, ◌≤◌, String, ◌≡◌, refl, ap, ◌∙◌, ◌+◌, Bool, true, false, not, ◌&&◌, ◌||◌, Option, none,
  some, List, [], ◌∷◌, ◌++◌, lookup, lookup-insert, lookup-insert_self, is_some, is_empty,
  if◌then◌else◌, ◌==◌, nat_eq, string_eq, arith, Bool-cases, inl, inr,
}
use letschat.Composer.{
  Host, QueuedFile, OutgoingMessage, ComposerDraft, ComposerState, Task, Wait, Event, draft_at,
  is_current, is_stale, update, begin_send, begin_with, task_update, update_outgoing,
  patch_outgoing, finish, advance, is_blank, sending, as_outgoing, fail, restore, is_nothing,
  resume, reset,
}

-- What happens to the drafts: a component writes fields of one, a send is asked for, a task of any send
-- resumes, and the session ends.
pub data Action (h : Host) : Type 0 where
  write : (scope : String) (patch : ComposerDraft h → ComposerDraft h) → Action h
  send : (scope : String) (retry : Bool) → Action h
  resumes : Event h → Task h → Action h
  clear : Action h

module _ {h : Host} where
  abbrev pub act : Action h → ComposerState h → ComposerState h
  act (write scope patch) s = update scope patch none s
  act (send scope retry) s = (begin_send scope retry s).0
  act (resumes event task) s = (resume event task s).0
  act clear s = reset s

  abbrev pub run : List (Action h) → ComposerState h → ComposerState h
  run [] s = s
  run (a ∷ actions) s = run actions (act a s)

  -- Only a send takes a number.
  update-next :
      (scope : String) (patch : ComposerDraft h → ComposerDraft h) (operation : Option ℕ)
      (s : ComposerState h)
      → (update scope patch operation s).next_operation ≡ s.next_operation
  unfolding update
  update-next scope patch operation s = elim (Bool-cases (is_stale operation (draft_at scope s))) [
    | inl stale ↦ rw stale refl
    | inr fresh ↦ rw fresh refl
  ]

  module _ (scope : String) (draft : ComposerDraft h) where
    task_update-next :
        (patch : ComposerDraft h → ComposerDraft h) (s : ComposerState h)
        → (task_update scope draft patch s).next_operation ≡ s.next_operation
    unfolding task_update
    task_update-next patch s = update-next scope patch (some draft.operation) s

    update_outgoing-next :
        (f : OutgoingMessage h → OutgoingMessage h) (s : ComposerState h)
        → (update_outgoing scope draft f s).next_operation ≡ s.next_operation
    unfolding update_outgoing patch_outgoing
    update_outgoing-next f s = patched (draft_at scope s).outgoing
      where
        patched :
            (o : Option (OutgoingMessage h))
            → (patch_outgoing scope draft f o s).next_operation ≡ s.next_operation
        patched none = refl
        patched (some o) = task_update-next _ s

    finish-next : (s : ComposerState h) → (finish scope draft s).next_operation ≡ s.next_operation
    unfolding finish
    finish-next s = task_update-next _ s

    advance-next :
        (before after : List (QueuedFile h)) (s : ComposerState h)
        → (advance scope draft before after s).0.next_operation ≡ s.next_operation
    unfolding advance
    advance-next before [] s = elim (Bool-cases (is_current scope draft s)) [
      | inl current ↦ rw current refl
      | inr gone ↦ rw gone (finish-next s)
    ]
    advance-next before (entry ∷ after) s =
        let later = advance-next (before ++ entry ∷ []) after s in
        elim (Bool-cases (is_current scope draft s)) [
          | inl current ↦ elim (Bool-cases (is_some entry.attachment)) [
            | inl done ↦ rw current (rw done later)
            | inr waiting ↦ rw current (rw waiting refl)
          ]
          | inr gone ↦ rw gone (finish-next s)
        ]

    restore-next :
        (message : String) (o : Option (OutgoingMessage h)) (s : ComposerState h)
        → (restore scope draft message o s).next_operation ≡ s.next_operation
    unfolding restore
    restore-next message none s = update_outgoing-next _ s
    restore-next message (some o) s =
        elim (Bool-cases
          (is_empty (draft_at scope s).text && is_nothing (draft_at scope s).files)) [
            | inl free ↦ rw free (task_update-next _ s)
            | inr busy ↦ rw busy (update_outgoing-next _ s)
          ]

    fail-next :
        (message : String) (s : ComposerState h)
        → (fail scope draft message s).next_operation ≡ s.next_operation
    unfolding fail
    fail-next message s = elim (Bool-cases (is_current scope draft s)) [
      | inl current ↦
          rw current (finish-next _ ∙ restore-next message (draft_at scope s).outgoing s)
      | inr gone ↦ rw gone (finish-next s)
    ]

  resume-next :
      (event : Event h) (task : Task h) (s : ComposerState h)
      → (resume event task s).0.next_operation ≡ s.next_operation
  unfolding resume
  resume-next event task s = kept event task.wait
    where
      kept :
          (event : Event h) (wait : Wait h)
          → (resume event (record task { wait = wait }) s).0.next_operation ≡ s.next_operation
      kept (Event.stage reached) (Wait.upload before entry after) =
          update_outgoing-next task.scope task.draft _ s
      kept (Event.stage reached) (Wait.answer files) = refl
      kept (Event.progress share) (Wait.upload before entry after) =
          update_outgoing-next task.scope task.draft _ s
      kept (Event.progress share) (Wait.answer files) = refl
      kept (Event.uploaded attachment) (Wait.upload before entry after) =
          advance-next task.scope task.draft _ after _
          ∙ update_outgoing-next task.scope task.draft _ s
      kept (Event.uploaded attachment) (Wait.answer files) = refl
      kept Event.answered (Wait.upload before entry after) = refl
      kept Event.answered (Wait.answer files) =
          finish-next task.scope task.draft _ ∙ task_update-next task.scope task.draft _ s
      kept (Event.failed message) wait = fail-next task.scope task.draft message s

  begin_with-next :
      (scope : String) (retry : Bool) (o : Option (OutgoingMessage h)) (s : ComposerState h)
      → s.next_operation ≤ (begin_with scope retry o s).0.next_operation
  unfolding begin_with
  begin_with-next scope retry none s = omega arith
  begin_with-next scope retry (some content) s =
      elim (Bool-cases (is_blank content.text content.files)) [
        | inl blank ↦ rw blank (omega arith)
        | inr full ↦ rw full (omega arith)
      ]

  begin_send-next :
      (scope : String) (retry : Bool) (s : ComposerState h)
      → s.next_operation ≤ (begin_send scope retry s).0.next_operation
  unfolding begin_send
  begin_send-next scope retry s =
      let draft = draft_at scope s in
      elim (Bool-cases (draft.submitting || (is_some draft.outgoing && not retry))) [
        | inl busy ↦ rw busy (omega arith)
        | inr free ↦ rw free (
            begin_with-next scope retry (if retry then draft.outgoing else some (as_outgoing draft))
              s)
      ]

  -- A send takes the number that the counter then stands at.
  begin_with-takes :
      (scope : String) (retry : Bool) (o : Option (OutgoingMessage h)) (s : ComposerState h)
      (d : ComposerDraft h)
      → (begin_with scope retry o s).1 ≡ some d
      → (begin_with scope retry o s).0.next_operation ≡ d.operation
  unfolding begin_with sending
  begin_with-takes scope retry none s d = (λ e. ground arith)
  begin_with-takes scope retry (some content) s d =
      elim (Bool-cases (is_blank content.text content.files)) [
        | inl blank ↦ rw blank (λ e. ground arith)
        | inr full ↦ rw full (λ e. ground arith)
      ]

  begin_send-takes :
      (scope : String) (retry : Bool) (s : ComposerState h) (d : ComposerDraft h)
      → (begin_send scope retry s).1 ≡ some d
      → (begin_send scope retry s).0.next_operation ≡ d.operation
  unfolding begin_send
  begin_send-takes scope retry s d =
      let draft = draft_at scope s in
      elim (Bool-cases (draft.submitting || (is_some draft.outgoing && not retry))) [
        | inl busy ↦ rw busy (λ e. ground arith)
        | inr free ↦ rw free (
            begin_with-takes scope retry
              (if retry then draft.outgoing else some (as_outgoing draft)) s d)
      ]

  act-next : (a : Action h) (s : ComposerState h) → s.next_operation ≤ (act a s).next_operation
  unfolding reset
  act-next (write scope patch) s = ground (arith, update-next scope patch none s)
  act-next (send scope retry) s = begin_send-next scope retry s
  act-next (resumes event task) s = ground (arith, resume-next event task s)
  act-next clear s = omega arith

  run-next :
      (actions : List (Action h)) (s : ComposerState h)
      → s.next_operation ≤ (run actions s).next_operation
  run-next [] s = omega arith
  run-next (a ∷ actions) s = omega (arith, act-next a s, run-next actions (act a s))

  begin_with-gives :
      (scope : String) (retry : Bool) (o : Option (OutgoingMessage h)) (s : ComposerState h)
      (d : ComposerDraft h)
      → (begin_with scope retry o s).1 ≡ some d
      → ((draft_at scope (begin_with scope retry o s).0).submitting ≡ true)
        × ((draft_at scope (begin_with scope retry o s).0).operation ≡ d.operation)
        × (d.operation ≡ s.next_operation + 1)
  unfolding begin_with sending
  begin_with-gives scope retry none s d = (λ e. ground arith)
  begin_with-gives scope retry (some content) s d =
      elim (Bool-cases (is_blank content.text content.files)) [
        | inl blank ↦ rw blank (λ e. ground arith)
        | inr full ↦ rw full (
            rw
              (lookup-insert_self scope
                (sending retry (record content { error = none }) (s.next_operation + 1)
                  (draft_at scope s))
                s.drafts)
              (λ e. ground arith))
      ]

  begin_send_busy :
      (scope : String) (again : Bool) (t : ComposerState h)
      → (draft_at scope t).submitting ≡ true
      → begin_send scope again t ≡ (t, none)
  unfolding begin_send
  begin_send_busy scope again t e = rw e refl

  begin_send-gives :
      (scope : String) (retry : Bool) (s : ComposerState h) (d : ComposerDraft h)
      → (begin_send scope retry s).1 ≡ some d
      → ((draft_at scope (begin_send scope retry s).0).submitting ≡ true)
        × ((draft_at scope (begin_send scope retry s).0).operation ≡ d.operation)
        × (d.operation ≡ s.next_operation + 1)
  unfolding begin_send
  begin_send-gives scope retry s d =
      let draft = draft_at scope s in
      elim (Bool-cases (draft.submitting || (is_some draft.outgoing && not retry))) [
        | inl busy ↦ rw busy (λ e. ground arith)
        | inr free ↦ rw free (
            begin_with-gives scope retry
              (if retry then draft.outgoing else some (as_outgoing draft)) s d)
      ]

  -- Of two sends that start, of whatever scopes and whatever happens between them, the later one has the
  -- greater number.
  pub begin_send-run-grows :
      (scope other : String) (retry again : Bool) (s : ComposerState h) (actions : List (Action h))
      (d e : ComposerDraft h)
      → (begin_send scope retry s).1 ≡ some d
      → (begin_send other again (run actions (begin_send scope retry s).0)).1 ≡ some e
      → d.operation < e.operation
  begin_send-run-grows scope other retry again s actions d e first second =
      let t = (begin_send scope retry s).0 in
      let (busy, same, new) = begin_send-gives other again (run actions t) e second in
      omega (arith, begin_send-takes scope retry s d first, run-next actions t, new)
