-- ===== src/Examples/Simulator.antt =====
-- The callback that is slow on purpose (examples/read-stream-diagnostics/main.go:
-- callbackSimulator). Durations are in milliseconds; `shutdown` is how long after the start of a
-- callback the program is told to end, if it is.
use cloud_sdk_go.Base.{
  ◌≡◌, ap, refl, ◌∙◌, ℕ, zero, suc, ◌+◌, ◌*◌, ◌%◌, ◌≤◌, ◌<◌, min, String, Option, none, some,
  str_eq, arith, ◌==◌, if◌then◌else◌,
}

pub record Simulator : Type 0 where
  pub mode : String
  pub slow_duration : ℕ
  pub block_duration : ℕ
  pub count : ℕ

-- The action of a callback, by its number.
unfoldable pub action_of : String → ℕ → String
action_of mode n =
    if str_eq mode "cycle"
    then (if n % 3 == 1 then "normal" else if n % 3 == 2 then "slow" else "blocked")
    else mode

-- `wait`: the timer or the end of the program, whichever is first.
unfoldable pub wait : ℕ → Option ℕ → ℕ
wait duration none = duration
wait duration (some shutdown) = min duration shutdown

-- `handle`, with the time that it takes.
unfoldable pub handle : Option ℕ → Simulator → Simulator × ℕ
unfolding action_of wait
handle shutdown s =
    let n = (s.count + 1) % 18446744073709551616 in
    let action = action_of s.mode n in
    (
      record s { count = n },
      if str_eq action "slow"
          then wait s.slow_duration shutdown
          else if str_eq action "blocked"
          then wait s.block_duration shutdown
          else 0,
    )

-- A number of callbacks, one after the other, and the time that they take.
unfoldable pub handle_all : ℕ → Simulator → Simulator × ℕ
unfolding handle
handle_all zero s = (s, 0)
handle_all (suc k) s =
    let (s', time) = handle none s in let (s'', more) = handle_all k s' in (s'', time + more)

-- A callback that is running when the program ends returns then, whatever its mode.
pub handle-released : (shutdown : ℕ) (s : Simulator) → (handle (some shutdown) s).1 ≤ shutdown
unfolding handle wait
handle-released shutdown s = ground arith

abbrev thrice : ℕ → ℕ
thrice zero = 0
thrice (suc k) = suc (suc (suc (thrice k)))

abbrev pub cycle : (slow block count : ℕ) → Simulator
cycle slow block count = record {
  mode = "cycle";
  slow_duration = slow;
  block_duration = block;
  count = count;
}

handle_normal :
    (slow block c : ℕ)
    → 3 * c + 3 < 18446744073709551616
    → handle none (cycle slow block (3 * c)) ≡ (cycle slow block (3 * c + 1), 0)
unfolding handle action_of
handle_normal slow block c h =
    let e : (3 * c + 1) % 18446744073709551616 ≡ 3 * c + 1 = omega (arith, h) in
    let m : (3 * c + 1) % 3 ≡ 1 = omega arith in rw (handle, e, action_of, m) refl

handle_slow :
    (slow block c : ℕ)
    → 3 * c + 3 < 18446744073709551616
    → handle none (cycle slow block (3 * c + 1)) ≡ (cycle slow block (3 * c + 2), slow)
unfolding handle action_of wait
handle_slow slow block c h =
    let e : (3 * c + 1 + 1) % 18446744073709551616 ≡ 3 * c + 2 = omega (arith, h) in
    let m : (3 * c + 2) % 3 ≡ 2 = omega arith in rw (handle, e, action_of, m) refl

handle_blocked :
    (slow block c : ℕ)
    → 3 * c + 3 < 18446744073709551616
    → handle none (cycle slow block (3 * c + 2)) ≡ (cycle slow block (3 * (c + 1)), block)
unfolding handle action_of wait
handle_blocked slow block c h =
    let e : (3 * c + 2 + 1) % 18446744073709551616 ≡ 3 * (c + 1) = omega (arith, h) in
    let m : (3 * (c + 1)) % 3 ≡ 0 = omega arith in rw (handle, e, action_of, m) refl

then_all :
    (k time : ℕ) (s s' : Simulator)
    → handle none s ≡ (s', time)
    → (handle_all (suc k) s).1 ≡ time + (handle_all k s').1
unfolding handle_all
then_all k time s s' e = ap (λ x. x.1 + (handle_all k x.0).1) e

-- In cycle mode each three callbacks take the slow and the blocked duration together, until the
-- count of callbacks would pass 2 ^ 64: from a count of `3 * c`, three times `k` callbacks take
-- `k` times that.
pub cycle_time :
    (k c slow block : ℕ)
    → 3 * (c + k) + 3 < 18446744073709551616
    → (handle_all (thrice k) (cycle slow block (3 * c))).1 ≡ k * (slow + block)
unfolding handle_all
cycle_time zero c slow block h = omega arith
cycle_time (suc k) c slow block h =
    let b : 3 * c + 3 < 18446744073709551616 = omega (arith, h) in
    let rest = cycle_time k (c + 1) slow block (omega (arith, h)) in
    let n = thrice k in
    let e1 = then_all (suc (suc n)) 0 _ _ (handle_normal slow block c b) in
    let e2 = then_all (suc n) slow _ _ (handle_slow slow block c b) in
    let e3 = then_all n block _ _ (handle_blocked slow block c b) in
    e1 ∙ omega (arith, e2, e3, rest)
