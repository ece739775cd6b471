-- ===== src/App/Heard.antt =====
-- What the application's gap handler hears of a stream: the tracker and the channel together.
--
-- The trackers call the channel's side after they have released their lock, so that the order in
-- which events are handed over is a condition here.
use cloud_sdk_go.Base.{
  ◌≡◌, refl, sym, ap, ◌∙◌, inl, inr, String, Bool, Option, none, some, List, [], ◌∷◌, ◌++◌, map,
  str_eq, Bool-cases, if◌then◌else◌, arith, true,
}
use cloud_sdk_go.Gap.Tracker.{GapEvent, GapTracker}
use cloud_sdk_go.Gap.Trace.{Op, events_of}
use cloud_sdk_go.Gap.Trace as Trace
use cloud_sdk_go.Gap.Edges.{active_in, toggle, follows, follows-run}
use cloud_sdk_go.App.Notices.{ReadStreamGapEvent, public_event, Move, run}
use cloud_sdk_go.App.Delivered.{offered, calls, losses, Merges, done, left, right, run-delivers}

-- The notifications of one stream among all: whether a gap is open after them, `none` if one of
-- them is out of turn.
abbrev pub heard : String → Option Bool → List ReadStreamGapEvent → Option Bool
heard s none es = none
heard s (some b) [] = some b
heard s (some b) (e ∷ es) = heard s (if str_eq e.stream s then toggle b e.state else some b) es

heard-follows :
    (s : String) (o : Option Bool) (es : List GapEvent)
    → heard s o (map public_event es) ≡ follows o (events_of s es)
unfolding public_event
heard-follows s none es = refl
heard-follows s (some b) [] = refl
heard-follows s (some b) (e ∷ es) =
    let next =
      λ (c : Bool). heard s (if c then toggle b e.state else some b) (map public_event es) in
    let own = λ (c : Bool). follows (some b) (if c then e ∷ events_of s es else events_of s es) in
    elim (Bool-cases (str_eq e.stream s)) [
      | inl same ↦ ap next same ∙ heard-follows s (toggle b e.state) es ∙ sym (ap own same)
      | inr other ↦ ap next other ∙ heard-follows s (some b) es ∙ sym (ap own other)
    ]

-- What holds of all notifications holds of the first of them.
heard_first :
    (s : String) (xs ys : List ReadStreamGapEvent) (o : Option Bool) (b : Bool)
    → heard s o (xs ++ ys) ≡ some b
    → (c : Bool) × (heard s o xs ≡ some c)
heard_first s [] ys none b e = absurd (ground arith)
heard_first s [] ys (some a) b e = (a, refl)
heard_first s (x ∷ xs) ys none b e = absurd (ground arith)
heard_first s (x ∷ xs) ys (some a) b e =
    heard_first s xs ys (if str_eq x.stream s then toggle a x.state else some a) b e

-- The notifications of one region: each region has its tracker, and all use one channel.
abbrev pub of_region : String → List ReadStreamGapEvent → List ReadStreamGapEvent
of_region r [] = []
of_region r (e ∷ es) = let rest = of_region r es in if str_eq e.region r then e ∷ rest else rest

of_region-append :
    (r : String) (xs ys : List ReadStreamGapEvent)
    → of_region r (xs ++ ys) ≡ of_region r xs ++ of_region r ys
of_region-append r [] ys = refl
of_region-append r (x ∷ xs) ys = ground (arith, of_region-append r xs ys)

none_lost :
    {xs ys zs : List ReadStreamGapEvent} (r : String)
    → Merges xs ys zs
    → of_region r ys ≡ []
    → of_region r xs ≡ of_region r zs
none_lost r done e = refl
none_lost r (left x m) e = ap (λ l. if str_eq x.region r then x ∷ l else l) (none_lost r m e)
none_lost r (right {xs = xs} {ys = ys} {zs = zs} y m) e = elim (Bool-cases (str_eq y.region r)) [
  | inl same ↦ let f : y ∷ of_region r ys ≡ [] = rw same at e in absurd (ground arith)
  | inr other ↦ rw other (none_lost r m (rw other at e))
]

-- The application hears of the gaps and recoveries of a stream in a region in turn: in any run of
-- the channel that the trackers of all regions share, in which the events of the region are those of
-- its tracker, handed over in the order in which the tracker made them, and none of them is dropped,
-- the notifications of the region with which the handler was called so far alternate for each
-- stream, whatever comes from the other regions between, whenever the dispatcher runs and whether or
-- not the handler panics.
pub handler_hears-Alternates :
    (r : String) (ops : List Op) (t : GapTracker) (ms : List Move) (s : String)
    → of_region r (offered ms) ≡ map public_event (Trace.run ops t).1
    → of_region r (losses (run ms (record { events = []; dispatching = true })).1) ≡ []
    → (b : Bool) × (heard s
          (some (active_in s t))
          (of_region r (calls (run ms (record { events = []; dispatching = true })).1))
        ≡ some b)
handler_hears-Alternates r ops t ms s handed kept =
    let (n, acts) = run ms (record { events = []; dispatching = true }) in
    let (parts, _, _) = run-delivers ms in
    let e = sym (of_region-append r (calls acts) n.events) ∙ none_lost r parts kept ∙ handed in
    let all =
      ap (heard s (some (active_in s t))) e
      ∙ heard-follows s (some (active_in s t)) (Trace.run ops t).1
      ∙ follows-run ops s t in
    heard_first s (of_region r (calls acts)) (of_region r n.events) (some (active_in s t))
      (active_in s (Trace.run ops t).0) all
