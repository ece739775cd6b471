-- ===== src/Examples/Publisher.antt =====
-- The publisher of echo messages (examples/read-stream-diagnostics/main.go: publishEcho,
-- runPublisher).
use cloud_sdk_go.Base.{
  ◌≡◌, subst, ℕ, suc, ◌+◌, ◌%◌, ◌≤◌, ◌<◌, Bool, ◌||◌, Option, none, some, List, [], ◌∷◌, ◌++◌,
  length, arith, ltb, leb, Failure, message, length-append, if◌then◌else◌,
}
use cloud_sdk_go.App.Tenants.{Device}

-- What comes of the request for one message: an error before the answer, or its status and whether
-- its body could be read.
pub data Answer : Type 0 where
  fails : Failure → Answer
  answers : (status : ℕ) → (copied : Option Failure) → Answer

unfoldable pub publish_echo : Answer → Option Failure
publish_echo (fails e) = some e
publish_echo (answers status (some e)) = some e
publish_echo (answers status none) =
    if ltb status 200 || leb 300 status
    then some (message "echo publish returned an error status")
    else none

-- What is published in a round: the answer by sequence number, and whether the program was told to
-- end by then.
pub record Round : Type 0 where
  pub devices : List Device
  pub answer : ℕ → Answer
  pub ended : ℕ → Bool

-- One message, before what follows it: an error ends the round if the program is to end.
unfoldable pub send : Round → ℕ → Device → ℕ × List (ℕ × Device) → ℕ × List (ℕ × Device)
unfolding publish_echo
send r n d (last, rest) = elim (publish_echo (r.answer n)) [
  | none ↦ (last, (n, d) ∷ rest)
  | some e ↦ if r.ended n then (n, (n, d) ∷ []) else (last, (n, d) ∷ rest)
]

-- The loop of a round over the devices, from the last sequence number: the new one, and the
-- messages with their numbers.
unfoldable pub publish_each : Round → ℕ → List Device → ℕ × List (ℕ × Device)
unfolding send
publish_each r sequence [] = (sequence, [])
publish_each r sequence (d ∷ ds) =
    let n = (sequence + 1) % 18446744073709551616 in send r n d (publish_each r n ds)

unfoldable pub publish : Round → ℕ → ℕ × List (ℕ × Device)
unfolding publish_each
publish r sequence = publish_each r sequence r.devices

-- The rounds of `runPublisher`: one at its start, and one for each tick.
unfoldable pub run_publisher : List Round → ℕ → ℕ × List (ℕ × Device)
unfolding publish
run_publisher [] sequence = (sequence, [])
run_publisher (r ∷ rounds) sequence =
    let (n, sent) = publish r sequence in
    let (last, more) = run_publisher rounds n in (last, sent ++ more)

-- The messages are numbered on from a number.
abbrev pub IsNumbered : ℕ → List (ℕ × Device) → Type 0
IsNumbered n [] = Unit
IsNumbered n ((k, d) ∷ rest) = (k ≡ n + 1) × IsNumbered (n + 1) rest

-- What was sent goes on from a number, with no gap, and is not more than there was to send.
abbrev Goes : ℕ → ℕ → ℕ × List (ℕ × Device) → Type 0
Goes n limit (last, sent) = IsNumbered n sent × (last ≡ n + length sent) × (length sent ≤ limit)

send-Goes :
    (r : Round) (n limit : ℕ) (d : Device) (after : ℕ × List (ℕ × Device))
    → Goes (n + 1) limit after
    → Goes n (limit + 1) (send r (n + 1) d after)
unfolding send
send-Goes r n limit d (last, rest) h = ground (arith, h)

publish_each-Goes :
    (r : Round) (n : ℕ) (ds : List Device)
    → n + length ds < 18446744073709551616
    → Goes n (length ds) (publish_each r n ds)
unfolding publish_each
publish_each-Goes r n [] h = (tt, omega arith, omega arith)
publish_each-Goes r n (d ∷ ds) h =
    let e : (n + 1) % 18446744073709551616 ≡ n + 1 = omega (arith, h) in
    let l : suc (length ds) ≡ length ds + 1 = omega arith in
    rw (publish_each, e, l)
      (send-Goes r n (length ds) d (publish_each r (n + 1) ds)
        (publish_each-Goes r (n + 1) ds (omega (arith, h))))

append-IsNumbered :
    (n : ℕ) (xs ys : List (ℕ × Device))
    → IsNumbered n xs
    → IsNumbered (n + length xs) ys
    → IsNumbered n (xs ++ ys)
append-IsNumbered n [] ys h k = let e : n + 0 ≡ n = omega arith in rw e at k
append-IsNumbered n ((m, d) ∷ xs) ys h k =
    let e : n + suc (length xs) ≡ n + 1 + length xs = omega arith in
    (h.0, append-IsNumbered (n + 1) xs ys h.1 (rw e at k))

-- The devices of all rounds.
abbrev pub total : List Round → ℕ
total [] = 0
total (r ∷ rounds) = length r.devices + total rounds

rounds-Goes :
    (rounds : List Round) (n : ℕ)
    → n + total rounds < 18446744073709551616
    → Goes n (total rounds) (run_publisher rounds n)
unfolding run_publisher publish
rounds-Goes [] n h = (tt, omega arith, omega arith)
rounds-Goes (r ∷ rounds) n h =
    let (numbered, last, few) = publish_each-Goes r n r.devices (omega (arith, h)) in
    let (m, sent) = publish_each r n r.devices in
    let (numbered', last', few') = rounds-Goes rounds m (omega (arith, h, last, few)) in
    let more = (run_publisher rounds m).1 in
    (
      append-IsNumbered n sent more numbered (subst (λ x. IsNumbered x more) last numbered'),
      omega (arith, last, last', length-append sent more),
      omega (arith, few, few', length-append sent more),
    )

-- The echo messages of the publisher are numbered 1, 2, 3 and so on over all rounds, whatever the
-- answers to them, up to the one after which the program ends in each round: no number is skipped
-- or used twice, as long as there are fewer than 2 ^ 64 of them.
pub run_publisher-IsNumbered :
    (rounds : List Round)
    → total rounds < 18446744073709551616
    → IsNumbered 0 (run_publisher rounds 0).1
run_publisher-IsNumbered rounds h = (rounds-Goes rounds 0 (omega (arith, h))).0
