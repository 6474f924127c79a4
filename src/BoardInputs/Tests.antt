-- ===== src/BoardInputs/Tests.antt =====
-- The theorems on the buttons at a board of which the emergency stop is pressed, with a read that
-- fails in between.
use bisso_e350_controller.Base.{
  ℕ, ◌≤◌, ◌≡◌, not, refl, arith, Bool, true, false, List, [], ◌∷◌, replicate,
}
use bisso_e350_controller.BoardInputs.Polling.{
  BoardInputs, Read, mutex_busy, failed, got, no_line, board_inputs_update,
}
use bisso_e350_controller.BoardInputs.Debounce.{settled}
use bisso_e350_controller.BoardInputs.Samples.{bit, poll_all, samples_of, buttons_settled}

abbrev ready : BoardInputs
ready = record {
  input_cache = replicate 8 false;
  device_present = true;
  buttons_enabled = true;
  lines = replicate 8 no_line;
  mask_estop = 3;
  mask_pause = 4;
  mask_resume = 5;
  invalid_until = 0;
}

-- The stop is pressed and the other buttons are not.
abbrev pressed : List Bool
pressed = false ∷ false ∷ false ∷ true ∷ true ∷ true ∷ false ∷ false ∷ []

abbrev polls : List (ℕ × Read)
polls =
    (100, got pressed)
    ∷ (105, mutex_busy)
    ∷ (110, failed 111)
    ∷ (115, got pressed)
    ∷ replicate 15 (700, got pressed)

in_time : (poll_all polls ready).invalid_until ≤ 800
unfolding poll_all board_inputs_update
in_time = omega arith

active : settled (bit 3 pressed ∷ samples_of 3 0 polls []) ≡ true
unfolding settled samples_of
active = refl

buttons_settled_example :
    (board_inputs_update 800 (got pressed) (poll_all polls ready)).1 ≡ record {
      estop_active = settled (bit 3 pressed ∷ samples_of 3 0 polls []);
      pause_pressed = not (settled (bit 4 pressed ∷ samples_of 4 0 polls []));
      resume_pressed = not (settled (bit 5 pressed ∷ samples_of 5 0 polls []));
      connection_ok = true;
    }
buttons_settled_example =
    buttons_settled polls 800 pressed ready
      (record { present = refl; enabled = refl; lines = refl })
      (
        refl,
        (
          tt,
          (
            tt,
            (
              refl,
              (
                refl,
                (
                  refl,
                  (
                    refl,
                    (
                      refl,
                      (
                        refl,
                        (
                          refl,
                          (
                            refl,
                            (refl, (refl, (refl, (refl, (refl, (refl, (refl, (refl, tt)))))))),
                          ),
                        ),
                      ),
                    ),
                  ),
                ),
              ),
            ),
          ),
        ),
      )
      refl (omega arith) (omega arith) (omega arith) in_time
