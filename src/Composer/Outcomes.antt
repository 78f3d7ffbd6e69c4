-- ===== src/Composer/Outcomes.antt =====
-- What a send leaves in its draft when it succeeds and when it fails.
use letschat.Common.{
  String, ◌≡◌, refl, ap, ◌∙◌, ◌+◌, ◌⊎◌, Bool, true, false, ◌&&◌, none, some, List, [], ◌∷◌,
  lookup-insert, if◌then◌else◌, ◌==◌, nat_eq, string_eq, is_empty, arith, Bool-cases, inl, inr,
}
use letschat.Composer.{
  Host, QueuedFile, OutgoingMessage, ComposerDraft, ComposerState, Task, Wait, Event, draft_at,
  is_current, update, task_update, update_outgoing, patch_outgoing, finish, fail, restore, resume,
  is_nothing,
}

eq_of_is_empty : (text : String) → is_empty text ≡ true → text ≡ ""
eq_of_is_empty String.[] e = refl
eq_of_is_empty (String.◌∷◌ c t) e = ground arith

module _ {h : Host} where
  -- An update by the current task is made, and in its own scope only.
  draft_at-task_update :
      (scope other : String) (draft : ComposerDraft h) (patch : ComposerDraft h → ComposerDraft h)
      (s : ComposerState h)
      → (draft_at scope s).operation ≡ draft.operation
      → draft_at other (task_update scope draft patch s)
        ≡ (if scope == other then patch (draft_at scope s) else draft_at other s)
  unfolding task_update update
  draft_at-task_update scope other draft patch s same = ground (
    arith,
    lookup-insert scope other (patch (draft_at scope s)) s.drafts,
    string_eq.reflects scope other,
  )

  operation_of_current :
      (scope : String) (draft : ComposerDraft h) (s : ComposerState h)
      → is_current scope draft s ≡ true
      → (draft_at scope s).operation ≡ draft.operation
  operation_of_current scope draft s current = ground arith

  -- Two updates by the current task, the first of which keeps the operation.
  draft_at-finish :
      (scope other : String) (draft : ComposerDraft h) (patch : ComposerDraft h → ComposerDraft h)
      (s : ComposerState h)
      → is_current scope draft s ≡ true
      → (patch (draft_at scope s)).operation ≡ (draft_at scope s).operation
      → draft_at other (finish scope draft (task_update scope draft patch s)) ≡ (
          if scope == other
          then record (patch (draft_at scope s)) { submitting = false }
          else draft_at other s)
  unfolding finish
  draft_at-finish scope other draft patch s current keeps =
      let same = operation_of_current scope draft s current in
      ground (
        arith,
        draft_at-task_update scope scope draft patch s same,
        draft_at-task_update scope other draft patch s same,
        draft_at-task_update scope other draft (λ d. record d { submitting = false })
            (task_update scope draft patch s),
        string_eq.reflects scope scope,
      )

  -- When the server has taken the message, the draft is free again with one more message sent, and what
  -- was typed meanwhile stays in it.
  pub resume-answered :
      (scope other : String) (draft : ComposerDraft h) (files : List (QueuedFile h))
      (s : ComposerState h)
      → is_current scope draft s ≡ true
      → let task : Task h = record { scope = scope; draft = draft; wait = Wait.answer files } in
        draft_at other (resume Event.answered task s).0 ≡ (
          if scope == other
          then record (draft_at scope s) {
            outgoing = none;
            error = none;
            submitting = false;
            sent = draft.sent + 1;
          }
          else draft_at other s)
  unfolding resume finish
  resume-answered scope other draft files s current =
      draft_at-finish scope other draft
        (λ d. record d { outgoing = none; error = none; sent = draft.sent + 1 }) s current refl

  eq_of_is_nothing : (files : List (QueuedFile h)) → is_nothing files ≡ true → files ≡ []
  eq_of_is_nothing [] e = refl
  eq_of_is_nothing (file ∷ files) e = ground arith

  module _ (scope : String) (draft : ComposerDraft h) (message : String) (o : OutgoingMessage h)
      (s : ComposerState h) (current : is_current scope draft s ≡ true)
      (out : (draft_at scope s).outgoing ≡ some o) where
    abbrev is_free : Bool
    is_free = is_empty (draft_at scope s).text && is_nothing (draft_at scope s).files

    fail-restored :
        is_free ≡ true
        → draft_at scope (fail scope draft message s) ≡ record (draft_at scope s) {
          text = o.text;
          files = o.files;
          stages = o.stages;
          progress = o.progress;
          outgoing = none;
          error = some message;
          submitting = false;
        }
    unfolding fail restore
    fail-restored free = rw current (
        rw out (
          rw free (
            draft_at-finish scope scope draft _ s current refl
            ∙ ground (arith, string_eq.reflects scope scope))))

    outgoing_known :
        (f : OutgoingMessage h → OutgoingMessage h)
        → update_outgoing scope draft f s
          ≡ task_update scope draft (λ d. record d { outgoing = some (f o) }) s
    unfolding update_outgoing patch_outgoing
    outgoing_known f = rw out refl

    fail-kept :
        is_free ≡ false
        → draft_at scope (fail scope draft message s) ≡ record (draft_at scope s) {
          outgoing = some (record o { error = some message });
          submitting = false;
        }
    unfolding fail restore
    fail-kept busy = rw current (
        rw out (
          rw busy (
            ap (λ t. draft_at scope (finish scope draft t))
              (outgoing_known (λ o. record o { error = some message }))
            ∙ draft_at-finish scope scope draft
                (λ d. record d { outgoing = some (record o { error = some message }) }) s current
                refl
            ∙ ground (arith, string_eq.reflects scope scope))))

  free_of_empty :
      (d : ComposerDraft h)
      → d.text ≡ ""
      → d.files ≡ []
      → ¬ ((is_empty d.text && is_nothing d.files) ≡ false)
  free_of_empty d no_text no_files = rw no_text (rw no_files (λ e. ground arith))

  -- A send that fails loses nothing: the draft is free again, and what was being sent is back in it,
  -- with the error, exactly if the draft has no text and no file then; else the draft stays as it
  -- is, and what was being sent is kept beside it, with the error, for a retry.
  pub fail_lem :
      (scope : String) (draft : ComposerDraft h) (message : String) (o : OutgoingMessage h)
      (s : ComposerState h)
      → is_current scope draft s ≡ true
      → (draft_at scope s).outgoing ≡ some o
      → let before = draft_at scope s in
        let after = draft_at scope (fail scope draft message s) in
        ((before.text ≡ "")
          × (before.files ≡ [])
          × (after ≡ record before {
            text = o.text;
            files = o.files;
            stages = o.stages;
            progress = o.progress;
            outgoing = none;
            error = some message;
            submitting = false;
          }))
        ⊎ (¬ ((before.text ≡ "") × (before.files ≡ []))
            × (after ≡ record before {
              outgoing = some (record o { error = some message });
              submitting = false;
            }))
  fail_lem scope draft message o s current out =
      elim (Bool-cases (is_free scope draft message o s current out)) [
        | inl free ↦ inl (
          ground (arith, eq_of_is_empty (draft_at scope s).text),
          ground (arith, eq_of_is_nothing (draft_at scope s).files),
          fail-restored scope draft message o s current out free,
        )
        | inr busy ↦ inr (
          λ (no_text, no_files). free_of_empty (draft_at scope s) no_text no_files busy,
          fail-kept scope draft message o s current out busy,
        )
      ]
