-- ===== src/Deviation/Tests.antt =====
-- The theorems on the encoder supervision at concrete samples, and a run that raises the alarm.
use bisso_e350_controller.Base.{ℕ, ◌≡◌, refl, arith, true, List, [], ◌∷◌}
use bisso_e350_controller.Base.Int.{pos, ◌-ℤ◌}
use bisso_e350_controller.Deviation.Tracking.{
  Sample, blank, update_axis, record_sample, next_status, deviation_update, has_deviation_alarm,
}
use bisso_e350_controller.Deviation.Alarm.{run, Sustained, begins, goes_on, update_all}

-- The axis should be at 1000 and is elsewhere.
abbrev sample : ℕ → ℕ → Sample
sample now actual = record {
  now = now;
  timeout_ms = 1000;
  expected_pos = pos 1000;
  actual_pos = pos actual;
  is_moving = true;
}

-- The axis was fine at 50, and has been off since 100; the latest sample comes first.
abbrev history : List Sample
history = sample 900 920 ∷ sample 100 900 ∷ sample 50 1010 ∷ []

history-Sustained : Sustained blank 100 history
unfolding run update_axis record_sample next_status ◌-ℤ◌
history-Sustained = goes_on (begins refl (refl, omega arith) refl) (refl, omega arith) (omega arith)

abbrev samples : List (ℕ × Sample)
samples = (1, sample 100 900) ∷ (1, sample 1101 900) ∷ []

raised : has_deviation_alarm (update_all samples (blank ∷ blank ∷ blank ∷ blank ∷ [])) ≡ true
unfolding has_deviation_alarm update_all deviation_update update_axis record_sample next_status ◌-ℤ◌
raised = refl
