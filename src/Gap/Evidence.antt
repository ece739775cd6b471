-- ===== src/Gap/Evidence.antt =====
-- A recovery rests on evidence of the connection attempt that it reports.
use cloud_sdk_go.Base.{
  ℕ, ◌+◌, ◌≤◌, ◌≡◌, inl, inr, String, Option, none, some, List, [], ◌∷◌, ◌++◌, arith, lookup,
  lookup-insert, eq_iff, eq_refl, str_eq, Bool-cases, if◌then◌else◌, ◌&&◌,
}
use cloud_sdk_go.Gap.Tracker.{
  GapState, detected, recovered, GapEvent, Lifecycle, GapTracker, detect, subscription_started,
  connection_ready, broker_response,
}
use cloud_sdk_go.Gap.Trace.{
  Op, detects, starts, readies, responds, op_stream, step, run, events_of, events_of-append,
  step_other,
}

abbrev one_if_recovered : GapState → ℕ
one_if_recovered detected = 0
one_if_recovered recovered = 1

-- The number of recoveries among some events.
abbrev pub recoveries : List GapEvent → ℕ
recoveries [] = 0
recoveries (e ∷ es) = one_if_recovered e.state + recoveries es

recoveries-append : (xs ys : List GapEvent) → recoveries (xs ++ ys) ≡ recoveries xs + recoveries ys
recoveries-append [] ys = omega arith
recoveries-append (x ∷ xs) ys = omega (arith, recoveries-append xs ys)

abbrev is_ready : String → Op → ℕ
is_ready s (readies now j) = if str_eq j s then 1 else 0
is_ready s _ = 0

abbrev is_response : String → Op → ℕ
is_response s (responds now j) = if str_eq j s then 1 else 0
is_response s _ = 0

-- How often a stream's connection becomes ready, and how often the broker responds on it.
abbrev pub ready_count : String → List Op → ℕ
ready_count s [] = 0
ready_count s (op ∷ ops) = is_ready s op + ready_count s ops

abbrev pub response_count : String → List Op → ℕ
response_count s [] = 0
response_count s (op ∷ ops) = is_response s op + response_count s ops

-- Evidence that an open gap already has.
abbrev ready_held : Option Lifecycle → ℕ
ready_held none = 0
ready_held (some l) = if l.active && l.connection_ready then 1 else 0

abbrev response_held : Option Lifecycle → ℕ
response_held none = 0
response_held (some l) = if l.active && l.broker_response_after_gap then 1 else 0

module _ (s : String) where
  abbrev ready_in : GapTracker → ℕ
  ready_in t = ready_held (lookup s t.streams)

  abbrev response_in : GapTracker → ℕ
  response_in t = response_held (lookup s t.streams)

  -- A recovery uses up evidence of both kinds, and only the matching calls bring it.
  abbrev Spends : Op → GapTracker → Type 0
  Spends op t =
      let (t', events) = step op t in
      let spent = recoveries (events_of s events) in
      (spent + ready_in t' ≤ ready_in t + is_ready s op)
      × (spent + response_in t' ≤ response_in t + is_response s op)

  own-Spends : (op : Op) (t : GapTracker) → op_stream op ≡ s → Spends op t
  unfolding step detect subscription_started connection_ready broker_response
  own-Spends (detects now region j reason d) t e = grind (arith, eq_iff j s, lookup-insert)
  own-Spends (starts j) t e = grind (arith, eq_iff j s, lookup-insert)
  own-Spends (readies now j) t e = grind (arith, eq_iff j s, lookup-insert)
  own-Spends (responds now j) t e = grind (arith, eq_iff j s, lookup-insert)

  step-Spends : (op : Op) (t : GapTracker) → Spends op t
  step-Spends op t = elim (Bool-cases (str_eq (op_stream op) s)) [
    | inl own ↦ own-Spends op t ((eq_iff (op_stream op) s).0 own)
    | inr other ↦
        let o = step_other op s t (λ e. cc ((eq_iff (op_stream op) s).1 e)) in
        rw (o.0, o.1) (omega arith, omega arith)
  ]

  run-Spends :
      (ops : List Op) (t : GapTracker)
      → let spent = recoveries (events_of s (run ops t).1) in
        (spent ≤ ready_in t + ready_count s ops) × (spent ≤ response_in t + response_count s ops)
  unfolding run
  run-Spends [] t = omega arith
  run-Spends (op ∷ ops) t =
      let r = step op t in
      rw (events_of-append s r.1 (run ops r.0).1) (
        omega (
          arith,
          step-Spends op t,
          run-Spends ops r.0,
          recoveries-append (events_of s r.1) (events_of s (run ops r.0).1),
        ))

  starts_clears :
      (t : GapTracker) → let t' = (step (starts s) t).0 in (ready_in t' ≡ 0) × (response_in t' ≡ 0)
  unfolding step subscription_started
  starts_clears t = grind (arith, eq_refl s, lookup-insert)

-- Once a subscription of a stream starts, each recovery of the stream takes a connection that
-- becomes ready and a broker response after that start: what was observed before does not count,
-- whatever the tracker's state.
pub recovered_needs_evidence :
    (s : String) (ops : List Op) (t : GapTracker)
    → let restarted = (step (starts s) t).0 in
      let spent = recoveries (events_of s (run ops restarted).1) in
      (spent ≤ ready_count s ops) × (spent ≤ response_count s ops)
recovered_needs_evidence s ops t =
    let r = run-Spends s ops (step (starts s) t).0 in let c = starts_clears s t in omega arith
