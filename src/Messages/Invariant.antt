-- ===== src/Messages/Invariant.antt =====
-- The messages store over any sequence of actions: no channel ever shows two rows with one id.
use letschat.Common.{
  ℕ, ◌≡◌, refl, sym, Bool, true, false, Option, none, some, List, [], ◌∷◌, ◌++◌, arith, lookup,
  if◌then◌else◌, ◌==◌, nat_eq, lookup-insert, subst, All, or_else,
}
use letschat.Domain.{Message}
use letschat.History.{LocaleCompare, find_id, upsert, IsDistinct}
use letschat.History.Merge.{merge_history-IsDistinct, upsert-IsDistinct, append-IsDistinct}
use letschat.Messages.{
  MessagesState, id_of, empty, view, older, merge, set_channel_messages, prepend_older_messages,
  append_found, append_message,
}
use letschat.Messages.Views.{view-set_channel_messages, view-prepend_older_messages}

-- The actions of the store, with their arguments.
pub data Action : Type 0 where
  sets : ℕ → List Message → Action
  prepends : ℕ → List Message → Bool → Action
  appends : Message → Action

-- The server's rows have an id as their primary key, so a window or a page repeats none.
abbrev pub IsKeyed : Action → Type 0
IsKeyed (sets c messages) = IsDistinct id_of messages
IsKeyed (prepends c page exhausted) = IsDistinct id_of page
IsKeyed (appends m) = Unit

pub record IsValid (s : MessagesState) : Type 0 where
  pub views : (c : ℕ) → IsDistinct id_of (view s c)
  pub pages : (c : ℕ) → IsDistinct id_of (older s c)

-- A view is distinct if it is one of two views that are.
IsDistinct-if :
    (b : Bool) (xs ys zs : List Message)
    → xs ≡ (if b then ys else zs)
    → IsDistinct id_of ys
    → IsDistinct id_of zs
    → IsDistinct id_of xs
IsDistinct-if true xs ys zs e u v = subst (IsDistinct id_of) (sym e) u
IsDistinct-if false xs ys zs e u v = subst (IsDistinct id_of) (sym e) v

append_found-view-IsDistinct :
    (d : ℕ) (m : Message) (o : Option Message) (s : MessagesState)
    → find_id id_of m.id (view s m.channel_id) ≡ o
    → IsDistinct id_of (view s m.channel_id)
    → IsDistinct id_of (view s d)
    → IsDistinct id_of (view (append_found m o s) d)
unfolding append_found
append_found-view-IsDistinct d m none s h u v = ground (
  arith,
  lookup-insert m.channel_id d (view s m.channel_id ++ m ∷ []) s.messages_by_channel,
  append-IsDistinct id_of m (view s m.channel_id) h u,
)
append_found-view-IsDistinct d m (some row) s h u v = ground (
  arith,
  lookup-insert m.channel_id d (upsert id_of m (view s m.channel_id)) s.messages_by_channel,
  upsert-IsDistinct id_of m (view s m.channel_id) u,
)

append_found-older :
    (m : Message) (o : Option Message) (s : MessagesState) (d : ℕ)
    → older (append_found m o s) d ≡ older s d
unfolding append_found
append_found-older m none s d = refl
append_found-older m (some row) s d = ground arith

module _ (locale_compare : LocaleCompare) where
  abbrev pub step : MessagesState → Action → MessagesState
  step s (sets c messages) = set_channel_messages locale_compare c messages s
  step s (prepends c page exhausted) = prepend_older_messages locale_compare c page exhausted s
  step s (appends m) = append_message m s

  abbrev pub run : MessagesState → List Action → MessagesState
  run s [] = s
  run s (a ∷ rest) = run (step s a) rest

  merge-IsDistinct :
      (xs ys : List Message) → IsDistinct id_of ys → IsDistinct id_of (merge locale_compare xs ys)
  merge-IsDistinct xs ys u = merge_history-IsDistinct locale_compare id_of (λ m. m.sent_at) xs ys u

  pub step-IsValid : (s : MessagesState) (a : Action) → IsKeyed a → IsValid s → IsValid (step s a)
  unfolding append_message
  step-IsValid s (sets c messages) k v = record {
    views = λ d.
        IsDistinct-if (c == d) _ _ _ (view-set_channel_messages locale_compare c d messages s).0
          (merge-IsDistinct (older s c) messages k) (v.views d);
    pages = λ d.
        subst (λ o. IsDistinct id_of (or_else (lookup d o) []))
          (sym (view-set_channel_messages locale_compare c d messages s).1) (v.pages d);
  }
  step-IsValid s (prepends c page exhausted) k v = record {
    views = λ d.
        IsDistinct-if (c == d) _ _ _
          (view-prepend_older_messages locale_compare c d page exhausted s).0
          (merge-IsDistinct _ (view s c) (v.views c)) (v.views d);
    pages = λ d.
        IsDistinct-if (c == d) _ _ _
          (view-prepend_older_messages locale_compare c d page exhausted s).1
          (merge-IsDistinct (older s c) page k) (v.pages d);
  }
  step-IsValid s (appends m) k v = record {
    views = λ d. append_found-view-IsDistinct d m _ s refl (v.views m.channel_id) (v.views d);
    pages = λ d. subst (IsDistinct id_of) (sym (append_found-older m _ s d)) (v.pages d);
  }

  run-IsValid :
      (actions : List Action) (s : MessagesState)
      → All IsKeyed actions
      → IsValid s
      → IsValid (run s actions)
  run-IsValid [] s k v = v
  run-IsValid (a ∷ rest) s (k, ks) v = run-IsValid rest (step s a) ks (step-IsValid s a k v)

  empty-IsValid : IsValid empty
  unfolding lookup
  empty-IsValid = record { views = λ c. tt; pages = λ c. tt }

  -- From the empty store, whatever actions run with windows and pages that repeat no id, no channel's
  -- view and no channel's older pages hold two rows with one id.
  pub run-empty-IsValid :
      (actions : List Action) → All IsKeyed actions → IsValid (run empty actions)
  run-empty-IsValid actions k = run-IsValid actions empty k empty-IsValid
