-- ===== src/History/Order.antt =====
-- The order of a merged history.
use letschat.Common.{ℕ, String, List, [], ◌∷◌, IsSorted, IsOrder, sort-IsSorted}
use letschat.History.{LocaleCompare, merge_history, by_time}

module _ (locale_compare : LocaleCompare) {A : Type 0} (id : A → ℕ) (sent_at : A → String) where
  pub merge_history-IsSorted :
      IsOrder (by_time locale_compare sent_at)
      → (older live : List A) → IsSorted (by_time locale_compare sent_at) live
      → IsSorted
          (by_time locale_compare sent_at)
          (merge_history locale_compare id sent_at older live)
  unfolding merge_history
  merge_history-IsSorted o [] live s = s
  merge_history-IsSorted o (x ∷ xs) live s = sort-IsSorted _ o _
