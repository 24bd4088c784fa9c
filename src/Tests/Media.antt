-- ===== src/Tests/Media.antt =====
-- A transfer of three chunks, which are acknowledged out of order, one of them twice.
use nkc.Base.{ℕ, ◌<◌, ◌≡◌, ◌↔◌, true, [], ◌∷◌, arith}
use nkc.Media.{complete, fresh_progress, has}
use nkc.Media.Completion.{ack_each, complete_iff_every}

complete_iff_every_example :
    ((ack_each (2 ∷ 0 ∷ 2 ∷ 1 ∷ []) (fresh_progress "t" "conv" 3 0)).status ≡ complete)
    ↔ ((i : ℕ) → i < 3 → has (2 ∷ 0 ∷ 2 ∷ 1 ∷ []) i ≡ true)
complete_iff_every_example =
    complete_iff_every "t" "conv" 3 0 (2 ∷ 0 ∷ 2 ∷ 1 ∷ []) (omega arith)
      (omega arith, (omega arith, (omega arith, (omega arith, tt))))
