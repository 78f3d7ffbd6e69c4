-- ===== src/Ui/Tests.antt =====
-- Counters, mutes and settings on small inputs.
use letschat.Common.{String, ◌≡◌, refl, true, [], ◌∷◌, lookup, string_eq, trim, normalize_identity}
use letschat.Ui.{UiState, initial, toggle_muted_user}
use letschat.Ui.Unread.{increment_all}
use letschat.Ui.Muting.{is_muted_user, toggle_muted_user_lem}

abbrev lower : String → String
lower s = s

trim_both : trim "  ab c\n" ≡ "ab c"
unfolding trim
trim_both = refl

abbrev read_twice : UiState
read_twice = increment_all (3 ∷ 4 ∷ 3 ∷ []) initial

toggle_muted_user_example : is_muted_user lower "ab " (toggle_muted_user lower "ab" initial) ≡ true
unfolding normalize_identity lookup
toggle_muted_user_example = toggle_muted_user_lem lower "ab" "ab " initial
