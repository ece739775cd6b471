-- ===== src/Gap/Edges.antt =====
-- Notifications are edge-triggered.
use cloud_sdk_go.Base.{
  ◌≡◌, refl, ◌∙◌, ap, inl, inr, String, Bool, true, false, Option, none, some, List, [], ◌∷◌, ◌++◌,
  arith, lookup, lookup-insert, eq_iff, eq_refl, str_eq, Bool-cases,
}
use cloud_sdk_go.Gap.Tracker.{
  GapState, detected, recovered, GapEvent, GapTracker, is_active, detect, subscription_started,
  connection_ready, broker_response,
}
use cloud_sdk_go.Gap.Trace.{
  Op, detects, starts, readies, responds, op_stream, step, run, events_of, events_of-append,
  step_other,
}

-- Whether a stream has an open gap.
abbrev pub active_in : String → GapTracker → Bool
active_in s t = is_active (lookup s t.streams)

-- One notification, given whether a gap is open: a detection opens it and a recovery closes it;
-- `none` is a notification out of turn.
abbrev pub toggle : Bool → GapState → Option Bool
toggle false detected = some true
toggle true recovered = some false
toggle _ _ = none

abbrev pub follows : Option Bool → List GapEvent → Option Bool
follows none es = none
follows (some b) [] = some b
follows (some b) (e ∷ es) = follows (toggle b e.state) es

follows-append :
    (b : Option Bool) (xs ys : List GapEvent) → follows b (xs ++ ys) ≡ follows (follows b xs) ys
follows-append none xs ys = refl
follows-append (some b) [] ys = refl
follows-append (some b) (x ∷ xs) ys = follows-append (toggle b x.state) xs ys

step_own :
    (op : Op) (t : GapTracker)
    → let s = op_stream op in
      follows (some (active_in s t)) (events_of s (step op t).1) ≡ some (active_in s (step op t).0)
unfolding step detect subscription_started connection_ready broker_response
step_own (detects now region s reason d) t = grind (arith, eq_refl s, lookup-insert)
step_own (starts s) t = grind (arith, eq_refl s, lookup-insert)
step_own (readies now s) t = grind (arith, eq_refl s, lookup-insert)
step_own (responds now s) t = grind (arith, eq_refl s, lookup-insert)

follows-step :
    (op : Op) (s : String) (t : GapTracker)
    → follows (some (active_in s t)) (events_of s (step op t).1) ≡ some (active_in s (step op t).0)
follows-step op s t = elim (Bool-cases (str_eq (op_stream op) s)) [
  | inl own ↦ rw (← (eq_iff (op_stream op) s).0 own) (step_own op t)
  | inr other ↦
      let o = step_other op s t (λ e. cc ((eq_iff (op_stream op) s).1 e)) in rw (o.0, o.1) refl
]

-- Seen from any stream, in any sequence of calls, detections and recoveries alternate, beginning
-- with a detection if the stream has no open gap, and the tracker's flag says which came last.
pub follows-run :
    (ops : List Op) (s : String) (t : GapTracker)
    → follows (some (active_in s t)) (events_of s (run ops t).1) ≡ some (active_in s (run ops t).0)
unfolding run
follows-run [] s t = refl
follows-run (op ∷ ops) s t =
    let r = step op t in
    rw (events_of-append s r.1 (run ops r.0).1) (
      follows-append (some (active_in s t)) (events_of s r.1) (events_of s (run ops r.0).1)
      ∙ ap (λ b. follows b (events_of s (run ops r.0).1)) (follows-step op s t)
      ∙ follows-run ops s r.0)
