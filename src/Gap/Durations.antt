-- ===== src/Gap/Durations.antt =====
-- What the notification at the end of a gap says of the gap.
use cloud_sdk_go.Base.{
  ℕ, ◌-◌, ◌≡◌, inl, inr, String, true, false, Option, none, some, List, [], ◌∷◌, ◌++◌, arith,
  lookup, lookup-insert, eq_iff, eq_refl, str_eq, Bool-cases, ℤ, sub_ℕ, clamp,
}
use cloud_sdk_go.Gap.Tracker.{
  GapReason, recovered, GapEvent, Lifecycle, GapTracker, detect, subscription_started,
  connection_ready, broker_response,
}
use cloud_sdk_go.Gap.Trace.{
  Op, detects, starts, readies, responds, op_stream, step, run, events_of, events_of-append,
  step_other,
}
use cloud_sdk_go.Gap.Edges.{active_in}

-- The gap that a notification closes: its region, its reason and the time since its start.
pub record Closes (region : String) (reason : GapReason) (start : ℕ) (e : GapEvent) : Type 0 where
  pub is_recovery : e.state ≡ recovered
  pub same_region : e.region ≡ region
  pub same_reason : e.reason ≡ reason
  pub whole_duration : e.duration ≡ sub_ℕ e.occurred_at start

-- The first notification, if there is one.
abbrev pub First {κ} : (GapEvent → Type κ) → List GapEvent → Type κ
First P [] = Unit
First P (e ∷ es) = P e

module _ (s region : String) (reason : GapReason) (start : ℕ) where
  abbrev Opened : Option Lifecycle → Type 0
  Opened none = ⊥
  Opened (some l) =
      (l.active ≡ true) × (l.region ≡ region) × (l.reason ≡ reason) × (l.started_at ≡ start)

  -- An open gap stays as it is until a notification closes it.
  abbrev Keeps : Option Lifecycle → List GapEvent → Type 0
  Keeps o [] = Opened o
  Keeps o (e ∷ es) = Closes region reason start e

  own-Keeps :
      (op : Op) (t : GapTracker)
      → op_stream op ≡ s
      → Opened (lookup s t.streams)
      → Keeps (lookup s (step op t).0.streams) (events_of s (step op t).1)
  unfolding step detect subscription_started connection_ready broker_response
  own-Keeps (detects now r j why d) t e o = grind (arith, eq_iff j s, lookup-insert)
  own-Keeps (starts j) t e o = grind (arith, eq_iff j s, lookup-insert)
  own-Keeps (readies now j) t e o = grind (arith, eq_iff j s, lookup-insert)
  own-Keeps (responds now j) t e o = grind (arith, eq_iff j s, lookup-insert)

  step-Keeps :
      (op : Op) (t : GapTracker)
      → Opened (lookup s t.streams)
      → Keeps (lookup s (step op t).0.streams) (events_of s (step op t).1)
  step-Keeps op t o = elim (Bool-cases (str_eq (op_stream op) s)) [
    | inl own ↦ own-Keeps op t ((eq_iff (op_stream op) s).0 own) o
    | inr other ↦
        let u = step_other op s t (λ e. cc ((eq_iff (op_stream op) s).1 e)) in rw (u.0, u.1) o
  ]

  First-append :
      (o : Option Lifecycle) (xs ys : List GapEvent)
      → Keeps o xs
      → (Opened o → First (Closes region reason start) ys)
      → First (Closes region reason start) (xs ++ ys)
  First-append o [] ys k f = f k
  First-append o (x ∷ xs) ys k f = k

  run-First :
      (ops : List Op) (t : GapTracker)
      → Opened (lookup s t.streams)
      → First (Closes region reason start) (events_of s (run ops t).1)
  unfolding run
  run-First [] t o = tt
  run-First (op ∷ ops) t o =
      let r = step op t in
      rw (events_of-append s r.1 (run ops r.0).1) (
        First-append (lookup s r.0.streams) (events_of s r.1) (events_of s (run ops r.0).1)
          (step-Keeps op t o) (run-First ops r.0))

detect-Opened :
    (now : ℕ) (region s : String) (reason : GapReason) (d : ℤ) (t : GapTracker)
    → active_in s t ≡ false
    → Opened s region reason
        (now - clamp d)
        (lookup s (step (detects now region s reason d) t).0.streams)
unfolding step detect
detect-Opened now region s reason d t idle = grind (arith, eq_refl s, lookup-insert)

-- After a gap of an idle stream is detected, the stream's next notification, if there is one and
-- whatever calls come before it, is its recovery: it carries the region and the reason of the
-- detection, and the time from the start of the gap, which is the detection less its observed
-- duration, to the recovery.
pub detect-First-Closes :
    (now : ℕ) (region s : String) (reason : GapReason) (d : ℤ) (ops : List Op) (t : GapTracker)
    → active_in s t ≡ false
    → let opened = (step (detects now region s reason d) t).0 in
      First (Closes region reason (now - clamp d)) (events_of s (run ops opened).1)
detect-First-Closes now region s reason d ops t idle =
    run-First s region reason (now - clamp d) ops (step (detects now region s reason d) t).0
      (detect-Opened now region s reason d t idle)
