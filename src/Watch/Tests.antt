-- ===== src/Watch/Tests.antt =====
-- Instances of the theorems on the watchdog, and a test.
use cloud_sdk_go.Base.{ℕ, ◌≡◌, refl, true, false, none, List, [], ◌∷◌, arith, pos}
use cloud_sdk_go.Watch.Defs.{Watch, begin_watch, warning_due, run_watchdog}
use cloud_sdk_go.Watch.Warnings.{ticking, Spaced, warnings-Spaced}

abbrev rest_watch : Watch
rest_watch = record { start = 0; last_warning = 0; msg_id = ""; topic = "" }

abbrev instants : List ℕ
instants = 105 ∷ 111 ∷ 115 ∷ 125 ∷ []

two_warnings :
    (run_watchdog (pos 10) (pos 12) (ticking instants) (begin_watch 100 "m" "t" rest_watch)).1
    ≡ record { elapsed = pos 11; msg_id = "m"; topic = "t"; initial = true }
      ∷ record { elapsed = pos 25; msg_id = "m"; topic = "t"; initial = false }
      ∷ []
unfolding run_watchdog begin_watch warning_due
two_warnings = refl

warnings-Spaced_example :
    Spaced
      (pos 10)
      (pos 12)
      "m"
      none
      (run_watchdog (pos 10) (pos 12) (ticking instants) (begin_watch 100 "m" "t" rest_watch)).1
warnings-Spaced_example =
    warnings-Spaced (pos 10) (pos 12) 100 "m" "t" instants rest_watch (omega arith)
