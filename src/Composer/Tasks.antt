-- ===== src/Composer/Tasks.antt =====
-- What a task that sends a message does to its draft, and what it leaves alone.
use letschat.Common.{
  ◌<◌, String, ◌≡◌, refl, ap, ◌∙◌, false, Option, none, some, List, [], ◌∷◌, lookup, ◌==◌, nat_eq,
  string_eq, arith, Option-cases,
}
use letschat.Composer.{
  Host, QueuedFile, OutgoingMessage, ComposerDraft, ComposerState, Task, Wait, Event, draft_at,
  is_current, update, task_update, update_outgoing, patch_outgoing, finish, advance, fail, resume,
}

module _ {h : Host} where
  module _ (scope : String) (draft : ComposerDraft h) (s : ComposerState h)
      (pos : 0 < draft.operation) (gone : is_current scope draft s ≡ false) where
    other : ((draft_at scope s).operation == draft.operation) ≡ false
    other = ground (arith, Option-cases (lookup scope s.drafts))

    task_update_stale :
        (patch : ComposerDraft h → ComposerDraft h) → task_update scope draft patch s ≡ s
    unfolding task_update update
    task_update_stale patch = rw other refl

    finish_stale : finish scope draft s ≡ s
    unfolding finish
    finish_stale = task_update_stale _

    update_outgoing_stale :
        (f : OutgoingMessage h → OutgoingMessage h) → update_outgoing scope draft f s ≡ s
    unfolding update_outgoing patch_outgoing
    update_outgoing_stale f = outgoing (draft_at scope s).outgoing
      where
        outgoing : (o : Option (OutgoingMessage h)) → patch_outgoing scope draft f o s ≡ s
        outgoing none = refl
        outgoing (some o) = task_update_stale _

    advance_stale :
        (before after : List (QueuedFile h)) → (advance scope draft before after s).0 ≡ s
    unfolding advance
    advance_stale before [] = rw gone finish_stale
    advance_stale before (entry ∷ after) = rw gone finish_stale

    fail_stale : (message : String) → fail scope draft message s ≡ s
    unfolding fail
    fail_stale message = rw gone finish_stale

    uploaded_stale :
        (f : OutgoingMessage h → OutgoingMessage h) (before after : List (QueuedFile h))
        → (advance scope draft before after (update_outgoing scope draft f s)).0 ≡ s
    uploaded_stale f before after =
        ap (λ t. (advance scope draft before after t).0) (update_outgoing_stale f)
        ∙ advance_stale before after

    finished_stale :
        (patch : ComposerDraft h → ComposerDraft h)
        → finish scope draft (task_update scope draft patch s) ≡ s
    finished_stale patch = ap (finish scope draft) (task_update_stale patch) ∙ finish_stale

  -- A task whose draft is gone, or is sent anew, leaves the store as it is, whatever it is told.
  pub resume_stale :
      (event : Event h) (task : Task h) (s : ComposerState h)
      → 0 < task.draft.operation
      → is_current task.scope task.draft s ≡ false
      → (resume event task s).0 ≡ s
  unfolding resume
  resume_stale event task s pos gone = stale event task.wait
    where
      stale :
          (event : Event h) (wait : Wait h) → (resume event (record task { wait = wait }) s).0 ≡ s
      stale (Event.stage reached) (Wait.upload before entry after) =
          update_outgoing_stale task.scope task.draft s pos gone _
      stale (Event.stage reached) (Wait.answer files) = refl
      stale (Event.progress share) (Wait.upload before entry after) =
          update_outgoing_stale task.scope task.draft s pos gone _
      stale (Event.progress share) (Wait.answer files) = refl
      stale (Event.uploaded attachment) (Wait.upload before entry after) =
          uploaded_stale task.scope task.draft s pos gone _ _ _
      stale (Event.uploaded attachment) (Wait.answer files) = refl
      stale Event.answered (Wait.upload before entry after) = refl
      stale Event.answered (Wait.answer files) = finished_stale task.scope task.draft s pos gone _
      stale (Event.failed message) wait = fail_stale task.scope task.draft s pos gone message
