-- ===== src/App/Delivered.antt =====
-- The order in which the application's gap handler is called, and what is lost.
use cloud_sdk_go.Base.{
  ◌≤◌, ◌≡◌, refl, sym, ap, subst, ◌∙◌, ◌⊎◌, inl, inr, Bool, true, false, List, [], ◌∷◌, ◌++◌, arith,
  length, length-append, ltb, Bool-cases,
}
use mathlib.Core.List.{append-nil, append_assoc}
use cloud_sdk_go.Gap.Tracker.{GapEvent}
use cloud_sdk_go.App.Notices.{
  ReadStreamGapEvent, public_event, Notices, Act, handled, panicked, dropped, Move, detects, takes,
  ends, enqueue_read_stream_gap_event, invoke_read_stream_gap_handler,
  dispatch_read_stream_gap_event, move, run,
}

-- What the trackers hand over in a run.
abbrev pub offered : List Move → List ReadStreamGapEvent
offered [] = []
offered (detects e ∷ ms) = public_event e ∷ offered ms
offered (takes p ∷ ms) = offered ms
offered (ends ∷ ms) = offered ms

-- What the handler is called with, whether it returns or panics.
abbrev pub calls : List Act → List ReadStreamGapEvent
calls [] = []
calls (handled e ∷ acts) = e ∷ calls acts
calls (panicked e ∷ acts) = e ∷ calls acts
calls (dropped e ∷ acts) = calls acts

abbrev pub losses : List Act → List ReadStreamGapEvent
losses [] = []
losses (handled e ∷ acts) = losses acts
losses (panicked e ∷ acts) = losses acts
losses (dropped e ∷ acts) = e ∷ losses acts

-- The third list is made of the items of the first two, each in its order.
pub data Merges {ℓ} {A : Type ℓ} : List A → List A → List A → Type ℓ where
  done : Merges [] [] []
  left : {xs ys zs : List A} → (x : A) → Merges xs ys zs → Merges (x ∷ xs) ys (x ∷ zs)
  right : {xs ys zs : List A} → (y : A) → Merges xs ys zs → Merges xs (y ∷ ys) (y ∷ zs)

-- What comes of `queued` and `os`: the events that are accepted follow those that wait.
record Delivers (queued os : List ReadStreamGapEvent) (after : Notices × List Act) : Type 0 where
  accepted : List ReadStreamGapEvent
  order : calls after.1 ++ after.0.events ≡ queued ++ accepted
  parts : Merges accepted (losses after.1) os
  full : (losses after.1 ≡ []) ⊎ (16 ≤ length (queued ++ accepted))
  bounded : length after.0.events ≤ 16

detects-Delivers :
    (e : GapEvent) (n : Notices) (os : List ReadStreamGapEvent) (rest : List Move)
    → ((m : Notices) → length m.events ≤ 16 → Delivers m.events os (run rest m))
    → length n.events ≤ 16
    → Delivers n.events (public_event e ∷ os) (run (detects e ∷ rest) n)
unfolding run move enqueue_read_stream_gap_event
detects-Delivers e n os rest go b = elim (Bool-cases (ltb (length n.events) 16)) [
  | inl space ↦
      let q = n.events ++ (public_event e ∷ []) in
      let d =
        go (record n { events = q })
          (ground (arith, length-append n.events (public_event e ∷ []))) in
      rw (space, run)
        (record {
          accepted = public_event e ∷ d.accepted;
          order = d.order ∙ append_assoc n.events (public_event e ∷ []) d.accepted;
          parts = left (public_event e) d.parts;
          full =
              subst (λ l. (losses (run rest (record n { events = q })).1 ≡ []) ⊎ (16 ≤ length l))
                (append_assoc n.events (public_event e ∷ []) d.accepted) d.full;
          bounded = d.bounded;
        })
  | inr full ↦
      let d = go n b in
      rw (full, run)
        (record {
          accepted = d.accepted;
          order = d.order;
          parts = right (public_event e) d.parts;
          full = inr (ground (arith, length-append n.events d.accepted));
          bounded = d.bounded;
        })
]

dispatch_ended :
    (p : Bool) (q : List ReadStreamGapEvent) (n : Notices)
    → n.dispatching ≡ false
    → dispatch_read_stream_gap_event p q n ≡ (n, [])
unfolding dispatch_read_stream_gap_event
dispatch_ended p [] n off = refl
dispatch_ended p (e ∷ q) n off = simp off refl

dispatch_empty : (p : Bool) (n : Notices) → dispatch_read_stream_gap_event p [] n ≡ (n, [])
unfolding dispatch_read_stream_gap_event
dispatch_empty p n = refl

dispatch_on :
    (p : Bool) (e : ReadStreamGapEvent) (q : List ReadStreamGapEvent) (n : Notices)
    → n.dispatching ≡ true
    → dispatch_read_stream_gap_event p (e ∷ q) n
      ≡ (record n { events = q }, invoke_read_stream_gap_handler p e ∷ [])
unfolding dispatch_read_stream_gap_event
dispatch_on p e q n on = simp on refl

handed-Delivers :
    (p : Bool) (e : ReadStreamGapEvent) (q os : List ReadStreamGapEvent)
    (after : Notices × List Act)
    → Delivers q os after
    → Delivers (e ∷ q) os (after.0, invoke_read_stream_gap_handler p e ∷ after.1)
unfolding invoke_read_stream_gap_handler
handed-Delivers false e q os after d = record {
  accepted = d.accepted;
  order = ap (λ l. e ∷ l) d.order;
  parts = d.parts;
  full = elim d.full [ inl kept ↦ inl kept | inr many ↦ inr (omega (arith, many)) ];
  bounded = d.bounded;
}
handed-Delivers true e q os after d = record {
  accepted = d.accepted;
  order = ap (λ l. e ∷ l) d.order;
  parts = d.parts;
  full = elim d.full [ inl kept ↦ inl kept | inr many ↦ inr (omega (arith, many)) ];
  bounded = d.bounded;
}

takes-Delivers :
    (p : Bool) (q : List ReadStreamGapEvent) (n : Notices) (os : List ReadStreamGapEvent)
    (rest : List Move)
    → n.events ≡ q
    → ((m : Notices) → length m.events ≤ 16 → Delivers m.events os (run rest m))
    → length q ≤ 16
    → let (n', acts) = dispatch_read_stream_gap_event p q n in
      let (n'', more) = run rest n' in Delivers q os (n'', acts ++ more)
takes-Delivers p [] n os rest s go b =
    rw (dispatch_empty p n) (subst (λ l. Delivers l os (run rest n)) s (go n (rw s b)))
takes-Delivers p (e ∷ q) n os rest s go b = elim (Bool-cases n.dispatching) [
  | inl on ↦ rw (dispatch_on p e q n on) (
      handed-Delivers p e q os (run rest (record n { events = q }))
        (go (record n { events = q }) (omega (arith, b))))
  | inr off ↦
      rw (dispatch_ended p (e ∷ q) n off)
        (subst (λ l. Delivers l os (run rest n)) s (go n (rw s b)))
]

run-Delivers :
    (ms : List Move) (n : Notices)
    → length n.events ≤ 16
    → Delivers n.events (offered ms) (run ms n)
unfolding run move
run-Delivers [] n b = record {
  accepted = [];
  order = sym (append-nil n.events);
  parts = done;
  full = inl refl;
  bounded = b;
}
run-Delivers (detects e ∷ ms) n b =
    detects-Delivers e n (offered ms) ms (λ m c. run-Delivers ms m c) b
run-Delivers (takes p ∷ ms) n b =
    takes-Delivers p n.events n (offered ms) ms refl (λ m c. run-Delivers ms m c) b
run-Delivers (ends ∷ ms) n b = run-Delivers ms (record n { dispatching = false }) b

-- In any run on a new channel of moves of the trackers and the dispatcher, the events that the
-- handler was called with and then those in the channel are, in the order in which the trackers
-- handed them over, all those that were not dropped; an event is dropped only if 16 or more others
-- were accepted; and the channel never holds more than 16.
pub run-delivers :
    (ms : List Move)
    → let (n, acts) = run ms (record { events = []; dispatching = true }) in
      Merges (calls acts ++ n.events) (losses acts) (offered ms)
      × ((losses acts ≡ []) ⊎ (16 ≤ length (calls acts ++ n.events)))
      × (length n.events ≤ 16)
run-delivers ms =
    let d = run-Delivers ms (record { events = []; dispatching = true }) (omega arith) in
    let acts = (run ms (record { events = []; dispatching = true })).1 in
    (
      subst (λ l. Merges l (losses acts) (offered ms)) (sym d.order) d.parts,
      subst (λ l. (losses acts ≡ []) ⊎ (16 ≤ length l)) (sym d.order) d.full,
      d.bounded,
    )
