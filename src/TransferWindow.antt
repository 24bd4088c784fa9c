-- ===== src/TransferWindow.antt =====
-- The number of chunks of a media transfer that are sent at once: `AdaptiveTransferWindow` of
-- src/net/adaptiveTransferWindow.ts.
use nkc.Base.{
  ℕ, suc, ◌+◌, ◌≤◌, ◌≡◌, Bool, true, false, ◌&&◌, List, [], ◌∷◌, ltb, leb, ◌==◌, if◌then◌else◌,
  arith,
}

pub record Window : Type 0 where
  pub window : ℕ
  pub success_streak : ℕ

module _ (maximum promotion_threshold : ℕ) where
  abbrev pub new_window : Window
  new_window = record { window = 1; success_streak = 0 }

  unfoldable pub on_success : Window → Window
  on_success w =
      if ((w.window == 1) && ltb 1 maximum) && leb promotion_threshold (w.success_streak + 1)
      then record { window = maximum; success_streak = 0 }
      else record w { success_streak = w.success_streak + 1 }

  unfoldable pub on_failure : Window → Window
  on_failure w = record { window = 1; success_streak = 0 }

  -- The window after a history of results, the newest first.
  unfoldable pub after : List Bool → Window
  unfolding on_success on_failure
  after [] = new_window
  after (true ∷ results) = on_success (after results)
  after (false ∷ results) = on_failure (after results)

  -- How many results in a row, up to the newest, are successes.
  abbrev pub streak : List Bool → ℕ
  streak [] = 0
  streak (true ∷ results) = suc (streak results)
  streak (false ∷ results) = 0

  -- The window is open exactly when the streak has reached the threshold; before that the streak
  -- itself is counted.
  abbrev Open : List Bool → Window → Type 0
  Open results w = elim (leb promotion_threshold (streak results) && ltb 1 maximum) [
    | true ↦ w.window ≡ maximum
    | false ↦ (w.window ≡ 1) × (w.success_streak ≡ streak results)
  ]

  after-Open : (results : List Bool) → 1 ≤ promotion_threshold → Open results (after results)
  unfolding after on_success on_failure
  after-Open [] some_threshold = ground arith
  after-Open (true ∷ results) some_threshold = ground (arith, after-Open results some_threshold)
  after-Open (false ∷ results) some_threshold = ground arith

  -- For a threshold and a maximum that are not zero: after any history the window has its maximum
  -- if at least as many of the newest results as the threshold are successes, and is one otherwise.
  pub after_lem :
      (results : List Bool)
      → 1 ≤ promotion_threshold
      → 1 ≤ maximum
      → (after results).window ≡ (if leb promotion_threshold (streak results) then maximum else 1)
  after_lem results some_threshold some_maximum = ground (arith, after-Open results some_threshold)
