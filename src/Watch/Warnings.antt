-- ===== src/Watch/Warnings.antt =====
-- When the watchdog warns.
use cloud_sdk_go.Base.{
  ℕ, ◌+◌, ◌≤◌, ◌<◌, ◌≡◌, refl, ◌⊎◌, String, Bool, true, false, ◌||◌, not, Option, none, some, List,
  [], ◌∷◌, arith, All, ℤ, pos, pos_part, neg_part, sub_ℕ, ltb_ℤ, ◌==◌, if◌then◌else◌,
}
use cloud_sdk_go.Watch.Defs.{
  Watch, Warning, Event, ticks, begin_watch, warning_due, check_interval, second, run_watchdog,
}

infix 50 ◌≤ℤ◌ ◌<ℤ◌
abbrev pub ◌≤ℤ◌ : ℤ → ℤ → Type 0
a ≤ℤ b = pos_part a + neg_part b ≤ pos_part b + neg_part a

abbrev pub ◌<ℤ◌ : ℤ → ℤ → Type 0
a <ℤ b = pos_part a + neg_part b < pos_part b + neg_part a

-- `r ≤ b - a`
abbrev pub Apart : ℤ → ℤ → ℤ → Type 0
Apart r a b = pos_part a + pos_part r + neg_part b ≤ pos_part b + neg_part a + neg_part r

-- The ticks of the watchdog at some instants.
abbrev pub ticking : List ℕ → List Event
ticking [] = []
ticking (n ∷ ns) = ticks n ∷ ticking ns

abbrev pub any_warning : List Warning → Bool
any_warning [] = false
any_warning (w ∷ ws) = true

module _ (threshold reminder : ℤ) where
  -- The warnings about one callback, given the age at the last one: the first comes at the
  -- threshold, each other one a positive reminder interval after the one before.
  abbrev pub Spaced : String → Option ℤ → List Warning → Type 0
  Spaced id previous [] = Unit
  Spaced id none (w ∷ ws) =
      (w.initial ≡ true)
      × (threshold ≤ℤ w.elapsed)
      × (w.msg_id ≡ id)
      × Spaced id (some w.elapsed) ws
  Spaced id (some p) (w ∷ ws) =
      (w.initial ≡ false)
      × (pos 0 <ℤ reminder)
      × Apart reminder p w.elapsed
      × (w.msg_id ≡ id)
      × Spaced id (some w.elapsed) ws

  -- The age at the last warning.
  abbrev last_age : Watch → Option ℤ
  last_age w = if w.last_warning == 0 then none else some (sub_ℕ w.last_warning w.start)

  run-Spaced :
      (nows : List ℕ) (w : Watch)
      → All (λ n. 0 < n) nows
      → Spaced w.msg_id (last_age w) (run_watchdog threshold reminder (ticking nows) w).1
  unfolding run_watchdog warning_due
  run-Spaced [] w p = tt
  run-Spaced (n ∷ nows) w p =
      ground (arith, run-Spaced nows w p.1, run-Spaced nows (record w { last_warning = n }) p.1)

  -- While one callback runs and ticks come after the zero time, warnings come at the threshold at
  -- the earliest and then a reminder interval apart at least; only the first is marked as the
  -- initial one, all name the callback's message, and without a positive reminder interval there
  -- is one at most.
  pub warnings-Spaced :
      (start : ℕ) (id topic : String) (nows : List ℕ) (w : Watch)
      → All (λ n. 0 < n) nows
      → Spaced id none
          (run_watchdog threshold reminder (ticking nows) (begin_watch start id topic w)).1
  unfolding begin_watch
  warnings-Spaced start id topic nows w p =
      run-Spaced nows (record { start = start; last_warning = 0; msg_id = id; topic = topic }) p

  -- Whether one of some ticks comes when the callback is at least `threshold` old.
  abbrev pub any_late : ℕ → List ℕ → Bool
  any_late start [] = false
  any_late start (n ∷ nows) = not (ltb_ℤ (sub_ℕ n start) threshold) || any_late start nows

  run-any :
      (nows : List ℕ) (w : Watch)
      → 0 < w.start
      → w.last_warning ≡ 0
      → pos 0 <ℤ threshold
      → any_warning (run_watchdog threshold reminder (ticking nows) w).1 ≡ any_late w.start nows
  unfolding run_watchdog warning_due
  run-any [] w s l p = refl
  run-any (n ∷ nows) w s l p = ground (arith, run-any nows w s l p)

  -- With a positive threshold, a callback that begins after the zero time is warned about exactly
  -- when a tick finds it at least that old.
  pub warned_iff_late :
      (start : ℕ) (id topic : String) (nows : List ℕ) (w : Watch)
      → 0 < start
      → pos 0 <ℤ threshold
      → any_warning
          (run_watchdog threshold reminder (ticking nows) (begin_watch start id topic w)).1
        ≡ any_late start nows
  unfolding begin_watch
  warned_iff_late start id topic nows w s p =
      run-any nows (record { start = start; last_warning = 0; msg_id = id; topic = topic }) s refl p

-- The watchdog looks at positive intervals of a second at most, and the interval is no longer than
-- the threshold, or the reminder interval, unless that is 0 or negative.
pub check_interval_bounds :
    (threshold reminder : ℤ)
    → let interval = check_interval threshold reminder in
      (pos 0 <ℤ interval)
      × (interval ≤ℤ second)
      × ((threshold ≤ℤ pos 0) ⊎ (interval ≤ℤ threshold))
      × ((reminder ≤ℤ pos 0) ⊎ (interval ≤ℤ reminder))
unfolding check_interval
check_interval_bounds threshold reminder = ground arith
