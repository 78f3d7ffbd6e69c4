-- ===== src/Composer.antt =====
-- The drafts of messages, src/stores/composerStore.ts, and the task that sends one,
-- src/features/chat/submitComposer.ts. The task is the code between two `await`s: each function here
-- runs from one resumption to the next suspension.
pub mod Tasks
pub mod Outcomes
pub mod Files
pub mod Sends
mod Tests
use letschat.Common.{
  ℕ, zero, suc, String, ◌+◌, Bool, true, false, not, ◌&&◌, ◌||◌, Option, none, some, List, [], ◌∷◌,
  ◌++◌, Dict, lookup, insert, or_else, is_some, if◌then◌else◌, ◌==◌, Equal, nat_eq, string_eq, trim,
  is_empty,
}

pub data UploadStage : Type 0 where
  requesting uploading confirming done failed : UploadStage

-- The types of the host: `File`, an uploaded attachment, and the share of a file that is uploaded.
pub record Host : Type 1 where
  pub File : Type 0
  pub Attachment : Type 0
  pub Fraction : Type 0

module _ (h : Host) where
  pub record QueuedFile : Type 0 where
    pub id : String
    pub file : h.File
    pub attachment : Option h.Attachment

  pub record OutgoingMessage : Type 0 where
    pub text : String
    pub files : List QueuedFile
    pub stages : Dict String UploadStage
    pub progress : Dict String h.Fraction
    pub error : Option String

  pub record ComposerDraft : Type 0 where
    pub outgoing : Option OutgoingMessage
    pub text : String
    pub files : List QueuedFile
    pub stages : Dict String UploadStage
    pub progress : Dict String h.Fraction
    pub error : Option String
    pub submitting : Bool
    pub operation : ℕ
    pub sent : ℕ

  -- The drafts, and the module's counter `nextOperation`, which no action resets.
  pub record ComposerState : Type 0 where
    pub drafts : Dict String ComposerDraft
    pub next_operation : ℕ

  -- A running `submitComposer`: its scope, the draft that it was given, its copy of the files, and
  -- what it waits for: the upload of a file, or the server's answer to the message.
  pub data Wait : Type 0 where
    upload : (before : List QueuedFile) (entry : QueuedFile) (after : List QueuedFile) → Wait
    answer : (files : List QueuedFile) → Wait

  pub record Task : Type 0 where
    pub scope : String
    pub draft : ComposerDraft
    pub wait : Wait

  -- What a task waits for: reports of the upload, the uploaded file, the answer, or an error.
  pub data Event : Type 0 where
    stage : UploadStage → Event
    progress : h.Fraction → Event
    uploaded : h.Attachment → Event
    answered : Event
    failed : String → Event

module _ {h : Host} where
  abbrev pub empty_draft : ComposerDraft h
  empty_draft = record {
    outgoing = none;
    text = "";
    files = [];
    stages = [];
    progress = [];
    error = none;
    submitting = false;
    operation = 0;
    sent = 0;
  }

  abbrev pub draft_at : String → ComposerState h → ComposerDraft h
  draft_at scope s = or_else (lookup scope s.drafts) empty_draft

  -- `operation !== undefined && draft.operation !== operation`
  abbrev pub is_stale : Option ℕ → ComposerDraft h → Bool
  is_stale none draft = false
  is_stale (some operation) draft = not (draft.operation == operation)

  -- `update`; a patch is the function that overwrites the fields it names.
  unfoldable pub update :
      String → (ComposerDraft h → ComposerDraft h) → Option ℕ → ComposerState h → ComposerState h
  update scope patch operation s =
      if is_stale operation (draft_at scope s)
      then s
      else record s { drafts = insert scope (patch (draft_at scope s)) s.drafts }

  -- `!content.text.trim() && !content.files.length`
  abbrev pub is_blank : String → List (QueuedFile h) → Bool
  is_blank text [] = is_empty (trim text)
  is_blank text (file ∷ files) = false

  -- The draft while `outgoing` is sent: a new message leaves the fields of the draft empty.
  sending : Bool → OutgoingMessage h → ℕ → ComposerDraft h → ComposerDraft h
  sending retry outgoing operation draft =
      let kept =
        if retry
        then draft
        else record draft { text = ""; files = []; stages = []; progress = [] } in
      record kept {
        outgoing = some outgoing;
        submitting = true;
        error = none;
        operation = operation;
      }

  -- `{ ...sending, ...outgoing }`
  abbrev with_outgoing : OutgoingMessage h → ComposerDraft h → ComposerDraft h
  with_outgoing o d = record d {
    text = o.text;
    files = o.files;
    stages = o.stages;
    progress = o.progress;
    error = o.error;
  }

  -- The send of `content`, unless there is nothing to send.
  begin_with :
      String
      → Bool
      → Option (OutgoingMessage h)
      → ComposerState h
      → ComposerState h × Option (ComposerDraft h)
  unfolding sending
  begin_with scope retry none s = (s, none)
  begin_with scope retry (some content) s =
      let outgoing = record content { error = none } in
      let draft = sending retry outgoing (s.next_operation + 1) (draft_at scope s) in
      if is_blank content.text content.files then (s, none) else (
        record { drafts = insert scope draft s.drafts; next_operation = s.next_operation + 1 },
        some (with_outgoing outgoing draft),
      )

  abbrev as_outgoing : ComposerDraft h → OutgoingMessage h
  as_outgoing d = record {
    text = d.text;
    files = d.files;
    stages = d.stages;
    progress = d.progress;
    error = d.error;
  }

  unfoldable pub begin_send :
      String → Bool → ComposerState h → ComposerState h × Option (ComposerDraft h)
  unfolding begin_with
  begin_send scope retry s =
      let draft = draft_at scope s in
      if draft.submitting || (is_some draft.outgoing && not retry)
      then (s, none)
      else begin_with scope retry (if retry then draft.outgoing else some (as_outgoing draft)) s

  unfoldable pub reset : ComposerState h → ComposerState h
  reset s = record s { drafts = [] }

  abbrev pub is_current : String → ComposerDraft h → ComposerState h → Bool
  is_current scope draft s =
      is_some (lookup scope s.drafts) && (draft_at scope s).operation == draft.operation

  -- The local functions `update` and `updateOutgoing`.
  unfoldable pub task_update :
      String
      → ComposerDraft h
      → (ComposerDraft h → ComposerDraft h)
      → ComposerState h
      → ComposerState h
  unfolding update
  task_update scope draft patch s = update scope patch (some draft.operation) s

  patch_outgoing :
      String
      → ComposerDraft h
      → (OutgoingMessage h → OutgoingMessage h)
      → Option (OutgoingMessage h)
      → ComposerState h
      → ComposerState h
  patch_outgoing scope draft f none s = s
  patch_outgoing scope draft f (some o) s =
      task_update scope draft (λ d. record d { outgoing = some (f o) }) s

  unfoldable pub update_outgoing :
      String
      → ComposerDraft h
      → (OutgoingMessage h → OutgoingMessage h)
      → ComposerState h
      → ComposerState h
  unfolding patch_outgoing
  update_outgoing scope draft f s = patch_outgoing scope draft f (draft_at scope s).outgoing s

  -- `finally`
  unfoldable pub finish : String → ComposerDraft h → ComposerState h → ComposerState h
  finish scope draft s = task_update scope draft (λ d. record d { submitting = false }) s

  -- The loop over the files, up to the next `await`: `before` is behind it.
  unfoldable pub advance :
      String
      → ComposerDraft h
      → List (QueuedFile h)
      → List (QueuedFile h)
      → ComposerState h
      → ComposerState h × Option (Task h)
  unfolding finish
  advance scope draft before [] s =
      if is_current scope draft s
      then (s, some (record { scope = scope; draft = draft; wait = Wait.answer before }))
      else (finish scope draft s, none)
  advance scope draft before (entry ∷ after) s =
      let rest = advance scope draft (before ++ entry ∷ []) after s in
      if is_current scope draft s
      then (if is_some entry.attachment then rest else (
        s,
        some (record { scope = scope; draft = draft; wait = Wait.upload before entry after }),
      ))
      else (finish scope draft s, none)

  start_with :
      String → ComposerState h × Option (ComposerDraft h) → ComposerState h × Option (Task h)
  start_with scope (s, none) = (s, none)
  start_with scope (s, some draft) = advance scope draft [] draft.files s

  -- `submitComposer` up to its first `await`.
  unfoldable pub submit_composer :
      String → Bool → ComposerState h → ComposerState h × Option (Task h)
  unfolding start_with
  submit_composer scope retry s = start_with scope (begin_send scope retry s)

  -- `!files.length`
  abbrev is_nothing : List (QueuedFile h) → Bool
  is_nothing [] = true
  is_nothing (file ∷ files) = false

  restore :
      String
      → ComposerDraft h
      → String
      → Option (OutgoingMessage h)
      → ComposerState h
      → ComposerState h
  unfolding update_outgoing
  restore scope draft message none s =
      update_outgoing scope draft (λ o. record o { error = some message }) s
  restore scope draft message (some o) s =
      if is_empty (draft_at scope s).text && is_nothing (draft_at scope s).files
      then task_update scope draft
          (λ d. record d {
            text = o.text;
            files = o.files;
            stages = o.stages;
            progress = o.progress;
            outgoing = none;
            error = some message;
          })
          s
      else update_outgoing scope draft (λ o. record o { error = some message }) s

  -- `catch` and `finally`, with the text of the error.
  unfoldable pub fail : String → ComposerDraft h → String → ComposerState h → ComposerState h
  unfolding restore finish
  fail scope draft message s =
      if is_current scope draft s
      then finish scope draft (restore scope draft message (draft_at scope s).outgoing s)
      else finish scope draft s

  -- A task resumes with an event that it waits for.
  unfoldable pub resume : Event h → Task h → ComposerState h → ComposerState h × Option (Task h)
  unfolding update_outgoing advance fail finish
  resume event task s = step event task.wait
    where
      step : Event h → Wait h → ComposerState h × Option (Task h)
      step (Event.stage reached) (Wait.upload before entry after) = (
        update_outgoing task.scope task.draft
            (λ o. record o { stages = insert entry.id reached o.stages }) s,
        some task,
      )
      step (Event.progress share) (Wait.upload before entry after) = (
        update_outgoing task.scope task.draft
            (λ o. record o { progress = insert entry.id share o.progress }) s,
        some task,
      )
      step (Event.uploaded attachment) (Wait.upload before entry after) =
          let done = record entry { attachment = some attachment } in
          advance task.scope task.draft (before ++ done ∷ []) after (
            update_outgoing task.scope task.draft (λ o. record o { files = before ++ done ∷ after })
              s)
      step Event.answered (Wait.answer files) = (
        finish task.scope task.draft (
            task_update task.scope task.draft
              (λ d. record d { outgoing = none; error = none; sent = task.draft.sent + 1 }) s),
        none,
      )
      step (Event.failed message) wait = (fail task.scope task.draft message s, none)
      step event wait = (s, some task)
