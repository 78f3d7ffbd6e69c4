-- ===== src/Activity/Typing.antt =====
-- Who types, before and after the entries that have run out are dropped.
use letschat.Common.{
  ℕ, ◌≤◌, String, ◌≡◌, refl, sym, ◌∙◌, ap, Bool, true, false, Option, none, some, [], ◌∷◌, Dict,
  lookup, if◌then◌else◌, ◌==◌, nat_eq, string_eq, ltb, length, arith, Bool-cases, inl, inr, or_else,
}
use letschat.Domain.{Identity}
use letschat.Activity.{TypingByScope, unexpired, keep_scope, prune_all, is_changed, prune_expired}

-- No key stands twice.
abbrev pub IsKeyed {ℓ} : {V : Type ℓ} → Dict String V → Type ℓ
IsKeyed [] = Unit
IsKeyed ((key, value) ∷ dict) = (lookup key dict ≡ none) × IsKeyed dict

abbrev pub still : ℕ → Option ℕ → Option ℕ
still now none = none
still now (some expires_at) = if ltb now expires_at then some expires_at else none

-- The entries of a scope.
abbrev pub entries_at : String → TypingByScope → Dict Identity ℕ
entries_at scope scopes = or_else (lookup scope scopes) []

lookup-unexpired :
    (now : ℕ) (identity : Identity) (entries : Dict Identity ℕ)
    → IsKeyed entries
    → lookup identity (unexpired now entries) ≡ still now (lookup identity entries)
unfolding unexpired lookup
lookup-unexpired now identity [] keyed = refl
lookup-unexpired now identity ((i, t) ∷ entries) (once, keyed) =
    ground (arith, lookup-unexpired now identity entries keyed, once, string_eq.reflects i identity)

unexpired-all :
    (now : ℕ) (entries : Dict Identity ℕ)
    → (length (unexpired now entries) ≤ length entries)
      × (length (unexpired now entries) ≡ length entries → unexpired now entries ≡ entries)
unfolding unexpired
unexpired-all now [] = (omega arith, λ h. refl)
unexpired-all now ((i, t) ∷ entries) = ground (arith, unexpired-all now entries)

entries_at-prune_all :
    (now : ℕ) (scope : String) (scopes : TypingByScope)
    → IsKeyed scopes
    → entries_at scope (prune_all now scopes) ≡ unexpired now (entries_at scope scopes)
unfolding prune_all unexpired lookup
entries_at-prune_all now scope [] keyed = refl
entries_at-prune_all now scope ((here, entries) ∷ scopes) (once, keyed) =
    kept (unexpired now entries) refl (entries_at-prune_all now scope scopes keyed)
  where
    kept :
        (l : Dict Identity ℕ)
        → unexpired now entries ≡ l
        → entries_at scope (prune_all now scopes) ≡ unexpired now (entries_at scope scopes)
        → entries_at scope (keep_scope here l (prune_all now scopes))
          ≡ unexpired now (entries_at scope ((here, entries) ∷ scopes))
    kept [] e ih = elim (Bool-cases (here == scope)) [
      | inl same ↦ rw same (rw e (ih ∙ nothing same))
      | inr other ↦ rw other ih
    ]
      where
        nothing : (here == scope) ≡ true → unexpired now (entries_at scope scopes) ≡ []
        nothing same =
            let none_there : entries_at scope scopes ≡ [] =
              ground (arith, once, string_eq.reflects here scope) in
            ap (unexpired now) none_there
    kept (entry ∷ l) e ih = elim (Bool-cases (here == scope)) [
      | inl same ↦ rw same (sym e)
      | inr other ↦ rw other ih
    ]

unchanged :
    (now : ℕ) (scope : String) (scopes : TypingByScope)
    → is_changed now scopes ≡ false
    → unexpired now (entries_at scope scopes) ≡ entries_at scope scopes
unfolding is_changed lookup unexpired
unchanged now scope [] h = refl
unchanged now scope ((here, entries) ∷ scopes) h =
    ground (arith, unchanged now scope scopes, unexpired-all now entries)

-- After the pruning an identity types in a scope exactly if it did and its time has not run out, whether or
-- not the store was written, if no scope and no identity of a scope stands twice.
pub lookup-prune_expired :
    (now : ℕ) (scopes : TypingByScope) (scope : String) (identity : Identity)
    → IsKeyed scopes
    → IsKeyed (entries_at scope scopes)
    → lookup identity (entries_at scope (prune_expired now scopes))
      ≡ still now (lookup identity (entries_at scope scopes))
unfolding prune_expired
lookup-prune_expired now scopes scope identity keyed each =
    ap (lookup identity) (pruned (is_changed now scopes) refl)
    ∙ lookup-unexpired now identity (entries_at scope scopes) each
  where
    pruned :
        (b : Bool)
        → is_changed now scopes ≡ b
        → entries_at scope (if b then prune_all now scopes else scopes)
          ≡ unexpired now (entries_at scope scopes)
    pruned true e = entries_at-prune_all now scope scopes keyed
    pruned false e = sym (unchanged now scope scopes e)
