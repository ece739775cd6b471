-- ===== src/Gap/Trace.antt =====
-- Sequences of calls of the tracker, and the events of one stream.
use cloud_sdk_go.Base.{
  ℕ, ◌≡◌, refl, ◌≢◌, String, List, [], ◌∷◌, ◌++◌, arith, lookup, lookup-insert, eq_iff, str_eq, ℤ,
  if◌then◌else◌,
}
use cloud_sdk_go.Gap.Tracker.{
  GapReason, GapEvent, GapTracker, detect, subscription_started, connection_ready, broker_response,
}

-- A call of a method, with what `time.Now()` returns in it.
pub data Op : Type 0 where
  detects : (now : ℕ) → (region stream : String) → GapReason → ℤ → Op
  starts : (stream : String) → Op
  readies : (now : ℕ) → (stream : String) → Op
  responds : (now : ℕ) → (stream : String) → Op

abbrev pub op_stream : Op → String
op_stream (detects now region stream reason d) = stream
op_stream (starts stream) = stream
op_stream (readies now stream) = stream
op_stream (responds now stream) = stream

unfoldable pub step : Op → GapTracker → GapTracker × List GapEvent
step (detects now region stream reason d) t = detect now region stream reason d t
step (starts stream) t = subscription_started stream t
step (readies now stream) t = connection_ready now stream t
step (responds now stream) t = broker_response now stream t

unfoldable pub run : List Op → GapTracker → GapTracker × List GapEvent
run [] t = (t, [])
run (op ∷ ops) t =
    let (t', events) = step op t in let (t'', rest) = run ops t' in (t'', events ++ rest)

-- The events about one stream.
abbrev pub events_of : String → List GapEvent → List GapEvent
events_of s [] = []
events_of s (e ∷ es) = let rest = events_of s es in if str_eq e.stream s then e ∷ rest else rest

pub events_of-append :
    (s : String) (xs ys : List GapEvent) → events_of s (xs ++ ys) ≡ events_of s xs ++ events_of s ys
events_of-append s [] ys = refl
events_of-append s (x ∷ xs) ys = ground (arith, events_of-append s xs ys)

-- A call about another stream leaves a stream's lifecycle alone and says nothing of it.
pub step_other :
    (op : Op) (s : String) (t : GapTracker)
    → op_stream op ≢ s
    → (lookup s (step op t).0.streams ≡ lookup s t.streams) × (events_of s (step op t).1 ≡ [])
unfolding step detect subscription_started connection_ready broker_response
step_other (detects now region j reason d) s t ne = grind (arith, eq_iff j s, lookup-insert)
step_other (starts j) s t ne = grind (arith, eq_iff j s, lookup-insert)
step_other (readies now j) s t ne = grind (arith, eq_iff j s, lookup-insert)
step_other (responds now j) s t ne = grind (arith, eq_iff j s, lookup-insert)
