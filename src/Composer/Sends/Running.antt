-- ===== src/Composer/Sends/Running.antt =====
-- What the actions of src/stores/composerStore.ts and of the tasks leave of a send that runs.
use letschat.Common.{
  ℕ, String, ◌≡◌, refl, true, false, ◌&&◌, Option, none, some, List, [], ◌∷◌, ◌++◌, lookup-insert,
  is_some, ◌==◌, nat_eq, string_eq, arith, Bool-cases, inl, inr, is_empty, insert,
}
use letschat.Composer.{
  Host, QueuedFile, OutgoingMessage, ComposerDraft, ComposerState, draft_at, is_current, is_stale,
  update, task_update, update_outgoing, patch_outgoing, finish, advance, fail, restore, is_nothing,
}

module _ {h : Host} where
  -- A send of the scope with the number runs.
  abbrev pub Sent : String → ℕ → ComposerState h → Type 0
  Sent scope n s = ((draft_at scope s).submitting ≡ true) × ((draft_at scope s).operation ≡ n)

  abbrev pub Keeps : (ComposerDraft h → ComposerDraft h) → Type 0
  Keeps patch =
      (d : ComposerDraft h)
      → ((patch d).submitting ≡ d.submitting) × ((patch d).operation ≡ d.operation)

  module _ (scope : String) (n : ℕ) where
    pub written-Sent :
        (other : String) (d : ComposerDraft h) (s : ComposerState h)
        → ((other == scope) ≡ true → (d.submitting ≡ true) × (d.operation ≡ n))
        → Sent scope n s
        → Sent scope n (record s { drafts = insert other d s.drafts })
    written-Sent other d s here sent = elim (Bool-cases (other == scope)) [
      | inl same ↦ rw (lookup-insert other scope d s.drafts) (rw same (here same))
      | inr apart ↦ rw (lookup-insert other scope d s.drafts) (rw apart sent)
    ]

    pub update-Sent :
        (other : String) (patch : ComposerDraft h → ComposerDraft h) (operation : Option ℕ)
        (s : ComposerState h)
        → Keeps patch
        → Sent scope n s
        → Sent scope n (update other patch operation s)
    unfolding update
    update-Sent other patch operation s keeps sent =
        elim (Bool-cases (is_stale operation (draft_at other s))) [
          | inl stale ↦ rw stale sent
          | inr fresh ↦ rw fresh (
              written-Sent other (patch (draft_at other s)) s
                (λ same. ground (arith, keeps (draft_at other s), string_eq.reflects other scope))
                sent)
        ]

    -- The updates of the task of another send, and those of any task that keep the send running.
    module _ (other : String) (draft : ComposerDraft h) where
      pub task_update-Sent :
          (patch : ComposerDraft h → ComposerDraft h) (s : ComposerState h)
          → Keeps patch
          → Sent scope n s
          → Sent scope n (task_update other draft patch s)
      unfolding task_update
      task_update-Sent patch s = update-Sent other patch (some draft.operation) s

      pub update_outgoing-Sent :
          (f : OutgoingMessage h → OutgoingMessage h) (s : ComposerState h)
          → Sent scope n s
          → Sent scope n (update_outgoing other draft f s)
      unfolding update_outgoing patch_outgoing
      update_outgoing-Sent f s sent = patched (draft_at other s).outgoing
        where
          patched :
              (o : Option (OutgoingMessage h)) → Sent scope n (patch_outgoing other draft f o s)
          patched none = sent
          patched (some o) = task_update-Sent _ s (λ d. (refl, refl)) sent

      restore-Sent :
          (message : String) (o : Option (OutgoingMessage h)) (s : ComposerState h)
          → Sent scope n s
          → Sent scope n (restore other draft message o s)
      unfolding restore
      restore-Sent message none s = update_outgoing-Sent _ s
      restore-Sent message (some o) s =
          elim (Bool-cases
            (is_empty (draft_at other s).text && is_nothing (draft_at other s).files)) [
              | inl free ↦ rw free (task_update-Sent _ s (λ d. (refl, refl)))
              | inr busy ↦ rw busy (update_outgoing-Sent _ s)
            ]

      module _ (apart : ((other == scope) && (draft.operation == n)) ≡ false) where
        pub finish-Sent :
            (s : ComposerState h) → Sent scope n s → Sent scope n (finish other draft s)
        unfolding finish task_update update
        finish-Sent s sent = elim (Bool-cases ((draft_at other s).operation == draft.operation)) [
          | inl current ↦ rw current (
              written-Sent other (record (draft_at other s) { submitting = false }) s
                (λ same. ground (arith, apart, current, sent, string_eq.reflects other scope)) sent)
          | inr stale ↦ rw stale sent
        ]

        pub advance-Sent :
            (before after : List (QueuedFile h)) (s : ComposerState h)
            → Sent scope n s
            → Sent scope n (advance other draft before after s).0
        unfolding advance
        advance-Sent before [] s sent = elim (Bool-cases (is_current other draft s)) [
          | inl current ↦ rw current sent
          | inr gone ↦ rw gone (finish-Sent s sent)
        ]
        advance-Sent before (entry ∷ after) s sent =
            let later = advance-Sent (before ++ entry ∷ []) after s sent in
            elim (Bool-cases (is_current other draft s)) [
              | inl current ↦ elim (Bool-cases (is_some entry.attachment)) [
                | inl done ↦ rw current (rw done later)
                | inr waiting ↦ rw current (rw waiting sent)
              ]
              | inr gone ↦ rw gone (finish-Sent s sent)
            ]

        pub fail-Sent :
            (message : String) (s : ComposerState h)
            → Sent scope n s
            → Sent scope n (fail other draft message s)
        unfolding fail
        fail-Sent message s sent = elim (Bool-cases (is_current other draft s)) [
          | inl current ↦
              rw current (finish-Sent _ (restore-Sent message (draft_at other s).outgoing s sent))
          | inr gone ↦ rw gone (finish-Sent s sent)
        ]
