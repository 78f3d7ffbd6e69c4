-- ===== src/Composer/Tests.antt =====
-- The drafts of two scopes, and a message with one file.
use letschat.Common.{
  insert, ◌<◌, ◌⊎◌, Option, List, map, trim, ◌≡◌, ◌+◌, arith, refl, true, false, ℕ, String, none,
  some, [], ◌∷◌, string_eq, lookup,
}
use letschat.Composer.{
  Host, QueuedFile, OutgoingMessage, ComposerDraft, ComposerState, Wait, Event, Task, UploadStage,
  advance, empty_draft, update, task_update, draft_at, begin_send, resume, fail, reset,
  submit_composer,
}
use letschat.Composer.Tasks.{resume_stale}
use letschat.Composer.Sends.{Action, run as run_actions, begin_send-run-grows}
use letschat.Composer.Sends.Once.{begin_send_once}
use letschat.Composer.Outcomes.{resume-answered, fail_lem}
use letschat.Composer.Files.{WhenRunning, IsReady, run, run-IsReady}

abbrev test_host : Host
test_host = record { File = ℕ; Attachment = String; Fraction = ℕ }

abbrev message : OutgoingMessage test_host
message = record { text = "hello"; files = []; stages = []; progress = []; error = none }

abbrev typed : ComposerState test_host
typed = record {
  drafts = ("general", record empty_draft { text = "hello" }) ∷ [];
  next_operation = 4;
}

abbrev sending : ComposerDraft test_host
sending = record empty_draft { outgoing = some message; submitting = true; operation = 5 }

abbrev in_flight : ComposerState test_host
in_flight = record { drafts = ("general", sending) ∷ []; next_operation = 5 }

abbrev picture : QueuedFile test_host
picture = record { id = "f"; file = 7; attachment = none }

abbrev with_picture : ComposerState test_host
with_picture = record {
  drafts = ("general", record empty_draft { files = picture ∷ [] }) ∷ [];
  next_operation = 0;
}

-- What happens to the first send: more is typed, another scope is tried, and its own file is uploaded.
abbrev first_task : Task test_host
first_task = record {
  scope = "general";
  draft = record sending { text = "hello" };
  wait = Wait.upload [] picture [];
}

abbrev meanwhile : List (Action test_host)
meanwhile =
    Action.write "general" (λ d. record d { text = "more" })
    ∷ Action.send "random" false
    ∷ Action.resumes (Event.uploaded "a") first_task
    ∷ []

begin_send_once_example :
    let t = run_actions meanwhile (begin_send "general" false typed).0 in
    begin_send "general" true t ≡ (t, none)
unfolding begin_send lookup trim
begin_send_once_example =
    begin_send_once "general" false true typed (record sending { text = "hello" }) meanwhile refl
      ((λ d. (refl, refl)), (tt, (refl, tt)))

-- The first send is answered, and what was typed meanwhile is sent.
abbrev answered_meanwhile : List (Action test_host)
answered_meanwhile =
    Action.write "general" (λ d. record d { text = "more" })
    ∷ Action.resumes Event.answered (record first_task { wait = Wait.answer [] })
    ∷ []

abbrev second_message : OutgoingMessage test_host
second_message = record message { text = "more" }

begin_send-run-grows_example : 5 < 6
unfolding begin_send lookup trim insert resume update task_update
begin_send-run-grows_example =
    begin_send-run-grows "general" "general" false false typed answered_meanwhile
      (record sending { text = "hello" })
      (record sending { text = "more"; outgoing = some second_message; operation = 6; sent = 1 })
      refl refl

resume_stale_example :
    (resume
      (Event.failed "offline")
      (record { scope = "general"; draft = sending; wait = Wait.answer [] })
      (reset in_flight)).0
    ≡ reset in_flight
unfolding reset lookup
resume_stale_example =
    resume_stale (Event.failed "offline")
      (record { scope = "general"; draft = sending; wait = Wait.answer [] }) (reset in_flight)
      (omega arith) refl

resume-answered_example :
    draft_at "general"
      (resume Event.answered
        (record { scope = "general"; draft = sending; wait = Wait.answer [] })
        in_flight).0
    ≡ record empty_draft { operation = 5; sent = 1 }
unfolding lookup
resume-answered_example = resume-answered "general" "general" sending [] in_flight refl

fail_lem_example :
    let before = draft_at "general" in_flight in
    let after = draft_at "general" (fail "general" sending "offline" in_flight) in
    ((before.text ≡ "")
      × (before.files ≡ [])
      × (after ≡ record empty_draft { text = "hello"; error = some "offline"; operation = 5 }))
    ⊎ (¬ ((before.text ≡ "") × (before.files ≡ []))
        × (after ≡ record before {
          outgoing = some (record message { error = some "offline" });
          submitting = false;
        }))
unfolding lookup
fail_lem_example = fail_lem "general" sending "offline" message in_flight refl refl

abbrev running : Option (Task test_host) → List (Task test_host)
running none = []
running (some task) = task ∷ []

abbrev sent_picture : ComposerState test_host
sent_picture = (begin_send "general" false with_picture).0

abbrev uploaded_picture : List (Event test_host × ComposerState test_host)
uploaded_picture =
    (Event.stage UploadStage.requesting, sent_picture) ∷ (Event.uploaded "a", sent_picture) ∷ []

-- The send with the picture uploaded waits for the server's answer.
picture_out :
    map
      (λ (task : Task test_host). task.wait)
      (running (run uploaded_picture (submit_composer "general" false with_picture).1))
    ≡ Wait.answer (record picture { attachment = some "a" } ∷ []) ∷ []
unfolding begin_send submit_composer advance resume lookup letschat.Common.insert
    letschat.Composer.task_update
picture_out = refl

run-IsReady_example :
    WhenRunning
      (IsReady "" (picture ∷ []))
      (run uploaded_picture (submit_composer "general" false with_picture).1)
unfolding lookup
run-IsReady_example = run-IsReady uploaded_picture "general" false with_picture
