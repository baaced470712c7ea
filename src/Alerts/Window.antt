-- ===== src/Alerts/Window.antt =====
-- internal/alerts/alerts.go: the breach window of one rule, `since`, over a stream of samples.
use owlwatch.Prelude.{ℕ, ◌≡◌, refl, ap, ◌∙◌, true, false, List, [], ◌∷◌, ◌++◌, some, All}
use mathlib.Core.Option.{get_or}
use owlwatch.Alerts.{Floats, Format, RuleState, advance}

module _ {F : Type 0} (floats : Floats F) (fmt : Format F) (threshold : F) where
  -- The samples of a rule, oldest first, each with its time.
  pub window : RuleState → List (F × ℕ) → RuleState
  window st [] = st
  window st ((v, t) ∷ samples) = window (advance floats fmt v threshold t st) samples

  abbrev pub IsBelow : F × ℕ → Type 0
  IsBelow s = floats.less s.0 threshold ≡ true

  abbrev pub IsBreaching : F × ℕ → Type 0
  IsBreaching s = floats.less s.0 threshold ≡ false

  window-append :
      (st : RuleState) (a b : List (F × ℕ)) → window st (a ++ b) ≡ window (window st a) b
  unfolding window
  window-append st [] b = refl
  window-append st ((v, t) ∷ a) b = window-append (advance floats fmt v threshold t st) a b

  open_window :
      (st : RuleState) (t : ℕ) (samples : List (F × ℕ))
      → st.since ≡ some t
      → All IsBreaching samples
      → (window st samples).since ≡ some t
  unfolding window advance
  open_window st t [] e all = e
  open_window st t ((v, now) ∷ samples) e (b, all) =
      open_window (advance floats fmt v threshold now st) t samples
        (rw b (ap (λ o. some (get_or o now)) e)) all

  -- After any samples, one below the threshold, and then samples at or above it without a break, the
  -- breach window is open since the first of that last run.
  pub window_since_run :
      (st : RuleState) (earlier : List (F × ℕ)) (below first : F × ℕ) (run : List (F × ℕ))
      → IsBelow below
      → IsBreaching first
      → All IsBreaching run
      → (window st (earlier ++ below ∷ first ∷ run)).since ≡ some first.1
  unfolding window advance
  window_since_run st earlier below first run b f all =
      ap (λ (s : RuleState). s.since) (window-append st earlier (below ∷ first ∷ run))
      ∙ open_window _ first.1 run (rw (b, f)) all
