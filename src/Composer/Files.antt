-- ===== src/Composer/Files.antt =====
-- The files of a message that is sent.
use mathlib.Core.List.{append_assoc}
use letschat.Common.{
  String, ◌≡◌, refl, sym, ap, ◌∙◌, Bool, true, Option, none, some, List, [], ◌∷◌, ◌++◌, map,
  is_some, All, false, not, ◌&&◌, ◌||◌, if◌then◌else◌, arith, Bool-cases, inl, inr,
}
use letschat.Composer.{
  Host, QueuedFile, ComposerDraft, ComposerState, Task, Wait, Event, is_current, advance, resume,
  begin_send, begin_with, start_with, submit_composer, OutgoingMessage, draft_at, sending,
  as_outgoing, is_blank,
}

module _ {h : Host} where
  abbrev IsUploaded : List (QueuedFile h) → Type 0
  IsUploaded = All (λ f. is_some f.attachment ≡ true)

  -- Which file a queued one is, uploaded or not.
  abbrev named : QueuedFile h → String × h.File
  named f = (f.id, f.file)

  -- What a send is asked to send: the draft, or on a retry the message that failed.
  abbrev pub text_to_send : Bool → Option (OutgoingMessage h) → ComposerDraft h → String
  text_to_send false outgoing d = d.text
  text_to_send true none d = ""
  text_to_send true (some o) d = o.text

  abbrev pub files_to_send :
      Bool → Option (OutgoingMessage h) → ComposerDraft h → List (QueuedFile h)
  files_to_send false outgoing d = d.files
  files_to_send true none d = []
  files_to_send true (some o) d = o.files

  -- The task sends the text, the files behind its loop are uploaded, and all its files are the ones asked
  -- for, in their order.
  abbrev pub IsReady : String → List (QueuedFile h) → Task h → Type 0
  IsReady text asked task = (task.draft.text ≡ text) × ready task.wait
    where
      ready : Wait h → Type 0
      ready (Wait.upload before entry after) =
          IsUploaded before × (map named (before ++ entry ∷ after) ≡ map named asked)
      ready (Wait.answer files) = IsUploaded files × (map named files ≡ map named asked)

  abbrev pub WhenRunning : (Task h → Type 0) → Option (Task h) → Type 0
  WhenRunning P none = Unit
  WhenRunning P (some task) = P task

  IsUploaded-append :
      (before : List (QueuedFile h)) (entry : QueuedFile h)
      → IsUploaded before
      → is_some entry.attachment ≡ true
      → IsUploaded (before ++ entry ∷ [])
  IsUploaded-append [] entry u e = (e, tt)
  IsUploaded-append (f ∷ fs) entry (v, u) e = (v, IsUploaded-append fs entry u e)

  append_none : (files : List (QueuedFile h)) → files ++ [] ≡ files
  append_none [] = refl
  append_none (f ∷ fs) = ap (λ gs. f ∷ gs) (append_none fs)

  advance-IsReady :
      (text : String) (asked : List (QueuedFile h)) (scope : String) (draft : ComposerDraft h)
      (before after : List (QueuedFile h)) (s : ComposerState h)
      → draft.text ≡ text
      → IsUploaded before
      → map named (before ++ after) ≡ map named asked
      → WhenRunning (IsReady text asked) (advance scope draft before after s).1
  unfolding advance
  advance-IsReady text asked scope draft before [] s w u e =
      elim (Bool-cases (is_current scope draft s)) [
        | inl current ↦ rw current (w, (u, ap (map named) (sym (append_none before)) ∙ e))
        | inr gone ↦ rw gone tt
      ]
  advance-IsReady text asked scope draft before (entry ∷ after) s w u e =
      elim (Bool-cases (is_current scope draft s)) [
        | inl current ↦ elim (Bool-cases (is_some entry.attachment)) [
          | inl done ↦ rw current (
              rw done (
                advance-IsReady text asked scope draft (before ++ entry ∷ []) after s w
                  (IsUploaded-append before entry u done)
                  (ap (map named) (append_assoc before (entry ∷ []) after) ∙ e)))
          | inr waiting ↦ rw current (rw waiting (w, (u, e)))
        ]
        | inr gone ↦ rw gone tt
      ]

  -- The draft that a send is given has what it is asked to send.
  begin_with-asked :
      (scope : String) (retry : Bool) (content : Option (OutgoingMessage h)) (s : ComposerState h)
      (d : ComposerDraft h)
      → (begin_with scope retry content s).1 ≡ some d
      → (text_to_send true content d ≡ d.text) × (files_to_send true content d ≡ d.files)
  unfolding begin_with sending
  begin_with-asked scope retry none s d = (λ e. ground arith)
  begin_with-asked scope retry (some content) s d =
      elim (Bool-cases (is_blank content.text content.files)) [
        | inl blank ↦ rw blank (λ e. ground arith)
        | inr full ↦ rw full (λ e. ground arith)
      ]

  begin_send-asked :
      (scope : String) (retry : Bool) (s : ComposerState h) (d : ComposerDraft h)
      → (begin_send scope retry s).1 ≡ some d
      → let at = draft_at scope s in
        (d.text ≡ text_to_send retry at.outgoing at)
        × (d.files ≡ files_to_send retry at.outgoing at)
  unfolding begin_send
  begin_send-asked scope retry s d =
      let at = draft_at scope s in
      elim (Bool-cases (at.submitting || (is_some at.outgoing && not retry))) [
        | inl busy ↦ rw busy (λ e. ground arith)
        | inr free ↦ rw free (content retry)
      ]
    where
      content :
          (b : Bool)
          → (begin_with scope b
              (if b then (draft_at scope s).outgoing else some (as_outgoing (draft_at scope s)))
              s).1
            ≡ some d
          → (d.text ≡ text_to_send b (draft_at scope s).outgoing (draft_at scope s))
            × (d.files ≡ files_to_send b (draft_at scope s).outgoing (draft_at scope s))
      content true e =
          let (text, files) = begin_with-asked scope true (draft_at scope s).outgoing s d e in
          known (draft_at scope s).outgoing text files e
        where
          known :
              (o : Option (OutgoingMessage h))
              → text_to_send true o d ≡ d.text
              → files_to_send true o d ≡ d.files
              → (begin_with scope true o s).1 ≡ some d
              → (d.text ≡ text_to_send true o (draft_at scope s))
                × (d.files ≡ files_to_send true o (draft_at scope s))
          known none text files e = (sym text, sym files)
          known (some o) text files e = (sym text, sym files)
      content false e =
          let (text, files) =
            begin_with-asked scope false (some (as_outgoing (draft_at scope s))) s d e in
          (sym text, sym files)

  submit_composer-IsReady :
      (scope : String) (retry : Bool) (s : ComposerState h)
      → let at = draft_at scope s in
        WhenRunning
          (IsReady (text_to_send retry at.outgoing at) (files_to_send retry at.outgoing at))
          (submit_composer scope retry s).1
  unfolding submit_composer start_with
  submit_composer-IsReady scope retry s =
      started (begin_send scope retry s) (begin_send-asked scope retry s)
    where
      started :
          (r : ComposerState h × Option (ComposerDraft h))
          → ((d : ComposerDraft h)
              → r.1 ≡ some d
              → let at = draft_at scope s in
                (d.text ≡ text_to_send retry at.outgoing at)
                × (d.files ≡ files_to_send retry at.outgoing at))
          → let at = draft_at scope s in
            WhenRunning
              (IsReady (text_to_send retry at.outgoing at) (files_to_send retry at.outgoing at))
              (start_with scope r).1
      started (t, none) given = tt
      started (t, some draft) given =
          let (text, files) = given draft refl in
          advance-IsReady _ _ scope draft [] draft.files t text tt (ap (map named) files)

  named-replace :
      (before : List (QueuedFile h)) (entry done : QueuedFile h) (after : List (QueuedFile h))
      → named done ≡ named entry
      → map named ((before ++ done ∷ []) ++ after) ≡ map named (before ++ entry ∷ after)
  named-replace [] entry done after e = ap (λ i. i ∷ map named after) e
  named-replace (f ∷ fs) entry done after e =
      ap (λ is. named f ∷ is) (named-replace fs entry done after e)

  resume-IsReady :
      (text : String) (asked : List (QueuedFile h)) (event : Event h) (task : Task h)
      (s : ComposerState h)
      → IsReady text asked task
      → WhenRunning (IsReady text asked) (resume event task s).1
  unfolding resume
  resume-IsReady text asked event task s = ready event task.wait
    where
      ready :
          (event : Event h) (wait : Wait h)
          → IsReady text asked (record task { wait = wait })
          → WhenRunning (IsReady text asked) (resume event (record task { wait = wait }) s).1
      ready (Event.stage reached) (Wait.upload before entry after) r = r
      ready (Event.stage reached) (Wait.answer files) r = r
      ready (Event.progress share) (Wait.upload before entry after) r = r
      ready (Event.progress share) (Wait.answer files) r = r
      ready (Event.uploaded attachment) (Wait.upload before entry after) (w, (u, e)) =
          let done = record entry { attachment = some attachment } in
          advance-IsReady text asked task.scope task.draft (before ++ done ∷ []) after _ w
            (IsUploaded-append before done u refl) (named-replace before entry done after refl ∙ e)
      ready (Event.uploaded attachment) (Wait.answer files) r = r
      ready Event.answered (Wait.upload before entry after) r = r
      ready Event.answered (Wait.answer files) r = tt
      ready (Event.failed message) wait r = tt

  -- A task after a sequence of events, each with the store that it finds then.
  abbrev pub run : List (Event h × ComposerState h) → Option (Task h) → Option (Task h)
  run [] task = task
  run ((event, s) ∷ rest) none = none
  run ((event, s) ∷ rest) (some task) = run rest (resume event task s).1

  all-IsReady :
      (text : String) (asked : List (QueuedFile h)) (events : List (Event h × ComposerState h))
      (task : Option (Task h))
      → WhenRunning (IsReady text asked) task
      → WhenRunning (IsReady text asked) (run events task)
  all-IsReady text asked [] task r = r
  all-IsReady text asked ((event, s) ∷ rest) none r = tt
  all-IsReady text asked ((event, s) ∷ rest) (some task) r =
      all-IsReady text asked rest (resume event task s).1 (resume-IsReady text asked event task s r)

  -- Whatever a send is told and whatever happens to the store between: while it runs it has the text that the
  -- draft had when it began, or on a retry the message that failed, and when it hands the message to the
  -- server every file of that draft or message is there, uploaded, in its order, and no other.
  pub run-IsReady :
      (events : List (Event h × ComposerState h)) (scope : String) (retry : Bool)
      (s : ComposerState h)
      → let at = draft_at scope s in
        WhenRunning
          (IsReady (text_to_send retry at.outgoing at) (files_to_send retry at.outgoing at))
          (run events (submit_composer scope retry s).1)
  run-IsReady events scope retry s =
      all-IsReady _ _ events (submit_composer scope retry s).1
        (submit_composer-IsReady scope retry s)
