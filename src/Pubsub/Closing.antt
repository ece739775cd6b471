-- ===== src/Pubsub/Closing.antt =====
-- Whether and when the closing of a connection ends.
use cloud_sdk_go.Base.{ℕ, ◌+◌, ◌≡◌, refl, ◌⊎◌, Bool, true, false, arith, if◌then◌else◌}
use cloud_sdk_go.Pubsub.Crew.{
  Crew, Work, reader_ends, writer_ends, writer_fails, processor_takes, processor_ends,
  subscriber_ends, ping_ends, ping_fails, close_finishes, Event, open_fails, disconnects,
  write_fails, receives, drops, subscribes, ping_due, processor_waits, writer_waits,
  processor_released, writer_released, work, event, outage, Run, here, next,
}

abbrev one_if : Bool → ℕ
one_if b = if b then 1 else 0

-- What is left to do before the closing has finished.
abbrev pub left_to_do : Crew → ℕ
left_to_do c =
    one_if c.reader
    + one_if c.writer
    + one_if c.processor
    + c.subscribers
    + c.pings
    + c.backlog
    + (if c.finished then 0 else 1)

-- How many moves of a run are work, and how many are events.
abbrev pub works : {c d : Crew} → Run c d → ℕ
works here = 0
works (next r (work w)) = works r + 1
works (next r (event e)) = works r
works (next r (outage o)) = works r

abbrev pub events : {c d : Crew} → Run c d → ℕ
events here = 0
events (next r (work w)) = events r
events (next r (event e)) = events r + 1
events (next r (outage o)) = events r

abbrev pub outages : {c d : Crew} → Run c d → ℕ
outages here = 0
outages (next r (work w)) = outages r
outages (next r (event e)) = outages r
outages (next r (outage o)) = outages r + 1

-- The closing has begun and the websocket has failed.
abbrev pub IsDoomed : Crew → Type 0
IsDoomed c = (c.closing ≡ true) × (c.socket_up ≡ false)

-- The processor or the writer waits in the handler of a subscriber.
abbrev pub IsHeld : Crew → Type 0
IsHeld c =
    ((c.processor ≡ true) × (c.processor_held ≡ true))
    ⊎ ((c.writer ≡ true) × (c.writer_held ≡ true))

-- The reader waits for a websocket that has not failed.
abbrev IsWaiting : Crew → Type 0
IsWaiting c = (c.closing ≡ true) × (c.socket_up ≡ true) × (c.reader ≡ true) × (c.finished ≡ false)

Work-IsWaiting : (c c' : Crew) → Work c c' → IsWaiting c → IsWaiting c'
Work-IsWaiting c c' (reader_ends a b e) d = ground arith
Work-IsWaiting c c' (writer_ends a h b e) d = ground arith
Work-IsWaiting c c' (writer_fails a h b e) d = ground arith
Work-IsWaiting c c' (processor_takes a h b e) d = ground arith
Work-IsWaiting c c' (processor_ends a h b e) d = ground arith
Work-IsWaiting c c' (subscriber_ends a e) d = ground arith
Work-IsWaiting c c' (ping_ends a e) d = ground arith
Work-IsWaiting c c' (ping_fails a e) d = ground arith
Work-IsWaiting c c' (close_finishes a b r w p s g e) d = ground arith

Event-IsWaiting : (c c' : Crew) → Event c c' → IsWaiting c → IsWaiting c'
Event-IsWaiting c c' (open_fails a e) d = ground arith
Event-IsWaiting c c' (disconnects a e) d = ground arith
Event-IsWaiting c c' (write_fails a h e) d = ground arith
Event-IsWaiting c c' (receives a b l e) d = ground arith
Event-IsWaiting c c' (drops a b e) d = ground arith
Event-IsWaiting c c' (subscribes a e) d = ground arith
Event-IsWaiting c c' (ping_due a h e) d = ground arith
Event-IsWaiting c c' (processor_waits a h b e) d = ground arith
Event-IsWaiting c c' (writer_waits a h e) d = ground arith
Event-IsWaiting c c' (processor_released a e) d = ground arith
Event-IsWaiting c c' (writer_released a e) d = ground arith

Run-IsWaiting : (c d : Crew) (r : Run c d) → outages r ≡ 0 → IsWaiting c → IsWaiting d
Run-IsWaiting c d here z h = h
Run-IsWaiting c e (next {d = d} r (work w)) z h = Work-IsWaiting d e w (Run-IsWaiting c d r z h)
Run-IsWaiting c e (next {d = d} r (event v)) z h = Event-IsWaiting d e v (Run-IsWaiting c d r z h)
Run-IsWaiting c e (next {d = d} r (outage o)) z h = absurd (omega arith)

-- When the open message fails while the websocket stays up, the closing never finishes without an
-- outage of the websocket: it waits for the reader, the reader for the websocket, and no call of
-- `disconnect` closes the websocket of a connection that counts as closed.
pub open_failure-waits :
    (c d : Crew) (r : Run (record c { closing = true }) d)
    → c.closing ≡ false
    → c.finished ≡ false
    → c.socket_up ≡ true
    → c.reader ≡ true
    → outages r ≡ 0
    → (d.finished ≡ false) × (d.reader ≡ true) × (d.socket_up ≡ true)
open_failure-waits c d r open_yet running up reading z =
    let k = Run-IsWaiting (record c { closing = true }) d r z (refl, up, reading, running) in
    (k.3, k.2, k.1)
