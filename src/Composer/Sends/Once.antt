-- ===== src/Composer/Sends/Once.antt =====
-- While a send runs there is no second one of its scope in src/stores/composerStore.ts.
use letschat.Common.{
  ℕ, String, ◌≡◌, refl, ◌+◌, Bool, true, false, not, ◌&&◌, ◌||◌, Option, none, some, List, [], ◌∷◌,
  ◌++◌, lookup, is_some, if◌then◌else◌, ◌==◌, nat_eq, string_eq, arith, Bool-cases, inl, inr, All,
  Option-cases,
}
use letschat.Composer.{
  Host, QueuedFile, OutgoingMessage, ComposerDraft, ComposerState, Task, Wait, Event, draft_at,
  is_current, begin_send, begin_with, advance, is_blank, as_outgoing, resume,
}
use letschat.Composer.Sends.{
  Action, write, send, resumes, clear, run, begin_send-gives, begin_send_busy,
}
use letschat.Composer.Sends.Running.{
  Keeps, Sent, written-Sent, update-Sent, task_update-Sent, update_outgoing-Sent, advance-Sent,
  finish-Sent, fail-Sent,
}

module _ {h : Host} where
  module _ (scope : String) (n : ℕ) where
    -- The send's own task goes on to the next file.
    Sent-is_current :
        (draft : ComposerDraft h) (s : ComposerState h)
        → draft.operation ≡ n
        → Sent scope n s
        → is_current scope draft s ≡ true
    Sent-is_current draft s own sent =
        ground (arith, own, sent, Option-cases (lookup scope s.drafts))

    own_advance :
        (draft : ComposerDraft h) (before after : List (QueuedFile h)) (s : ComposerState h)
        → draft.operation ≡ n
        → Sent scope n s
        → (advance scope draft before after s).0 ≡ s
    unfolding advance
    own_advance draft before [] s own sent = rw (Sent-is_current draft s own sent) refl
    own_advance draft before (entry ∷ after) s own sent =
        let later = own_advance draft (before ++ entry ∷ []) after s own sent in
        elim (Bool-cases (is_some entry.attachment)) [
          | inl done ↦ rw (Sent-is_current draft s own sent) (rw done later)
          | inr waiting ↦ rw (Sent-is_current draft s own sent) (rw waiting refl)
        ]

    -- The end of the session, and the answer to the send or its failure, are not among the actions.
    abbrev pub ends : Event h → Bool
    ends Event.answered = true
    ends (Event.failed message) = true
    ends event = false

    abbrev pub Spares : Action h → Type 0
    Spares (write other patch) = Keeps patch
    Spares (send other retry) = Unit
    Spares (resumes event task) =
        ((task.scope == scope) && (task.draft.operation == n) && ends event) ≡ false
    Spares clear = ⊥

    advance_any-Sent :
        (other : String) (draft : ComposerDraft h) (before after : List (QueuedFile h))
        (s : ComposerState h)
        → Sent scope n s
        → Sent scope n (advance other draft before after s).0
    advance_any-Sent other draft before after s sent =
        elim (Bool-cases ((other == scope) && (draft.operation == n))) [
          | inl own ↦
              let here : other ≡ scope = ground (arith, own, string_eq.reflects other scope) in
              let number : draft.operation ≡ n = ground (arith, own) in
              rw here (rw (own_advance draft before after s number sent) sent)
          | inr apart ↦ advance-Sent scope n other draft apart before after s sent
        ]

    resume-Sent :
        (event : Event h) (task : Task h) (s : ComposerState h)
        → Spares (resumes event task)
        → Sent scope n s
        → Sent scope n (resume event task s).0
    unfolding resume
    resume-Sent event task s = kept event task.wait
      where
        kept :
            (event : Event h) (wait : Wait h)
            → Spares (resumes event task)
            → Sent scope n s
            → Sent scope n (resume event (record task { wait = wait }) s).0
        kept (Event.stage reached) (Wait.upload before entry after) spared sent =
            update_outgoing-Sent scope n task.scope task.draft _ s sent
        kept (Event.stage reached) (Wait.answer files) spared sent = sent
        kept (Event.progress share) (Wait.upload before entry after) spared sent =
            update_outgoing-Sent scope n task.scope task.draft _ s sent
        kept (Event.progress share) (Wait.answer files) spared sent = sent
        kept (Event.uploaded attachment) (Wait.upload before entry after) spared sent =
            advance_any-Sent task.scope task.draft _ after _
              (update_outgoing-Sent scope n task.scope task.draft _ s sent)
        kept (Event.uploaded attachment) (Wait.answer files) spared sent = sent
        kept Event.answered (Wait.upload before entry after) spared sent = sent
        kept Event.answered (Wait.answer files) spared sent =
            finish-Sent scope n task.scope task.draft (ground (arith, spared)) _
              (task_update-Sent scope n task.scope task.draft _ s (λ d. (refl, refl)) sent)
        kept (Event.failed message) wait spared sent =
            fail-Sent scope n task.scope task.draft (ground (arith, spared)) message s sent

    begin_with-Sent :
        (other : String) (retry : Bool) (o : Option (OutgoingMessage h)) (s : ComposerState h)
        → (other == scope) ≡ false
        → Sent scope n s
        → Sent scope n (begin_with other retry o s).0
    unfolding begin_with
    begin_with-Sent other retry none s apart sent = sent
    begin_with-Sent other retry (some content) s apart sent =
        elim (Bool-cases (is_blank content.text content.files)) [
          | inl blank ↦ rw blank sent
          | inr full ↦ rw full (
              written-Sent scope n other _ (record s { next_operation = s.next_operation + 1 })
                (λ same. ground (arith, apart)) sent)
        ]

    begin_send-Sent :
        (other : String) (retry : Bool) (s : ComposerState h)
        → Sent scope n s
        → Sent scope n (begin_send other retry s).0
    unfolding begin_send
    begin_send-Sent other retry s sent =
        let at = draft_at other s in
        elim (Bool-cases (at.submitting || (is_some at.outgoing && not retry))) [
          | inl busy ↦ rw busy sent
          | inr free ↦ rw free (
              begin_with-Sent other retry (if retry then at.outgoing else some (as_outgoing at)) s
                (ground (arith, free, sent, string_eq.reflects other scope)) sent)
        ]

    run-Sent :
        (actions : List (Action h)) (s : ComposerState h)
        → All Spares actions
        → Sent scope n s
        → Sent scope n (run actions s)
    run-Sent [] s spared sent = sent
    run-Sent (write other patch ∷ actions) s (keeps, spared) sent =
        run-Sent actions _ spared (update-Sent scope n other patch none s keeps sent)
    run-Sent (send other retry ∷ actions) s (here, spared) sent =
        run-Sent actions _ spared (begin_send-Sent other retry s sent)
    run-Sent (clear ∷ actions) s (here, spared) sent = elim here [ ]
    run-Sent (resumes event task ∷ actions) s (here, spared) sent =
        run-Sent actions _ spared (resume-Sent event task s here sent)

  -- From the start of a send to its answer, its failure or the end of the session, whatever else
  -- happens (writes that keep the flag and the number of the send, sends of any scope, the
  -- resumptions of its task and of others), no second send of its scope starts, a retry neither.
  pub begin_send_once :
      (scope : String) (retry again : Bool) (s : ComposerState h) (d : ComposerDraft h)
      (actions : List (Action h))
      → (begin_send scope retry s).1 ≡ some d
      → All (Spares scope d.operation) actions
      → let t = run actions (begin_send scope retry s).0 in begin_send scope again t ≡ (t, none)
  begin_send_once scope retry again s d actions e spared =
      let (busy, same, new) = begin_send-gives scope retry s d e in
      begin_send_busy scope again _
        ((run-Sent scope d.operation actions (begin_send scope retry s).0 spared (busy, same)).0)
