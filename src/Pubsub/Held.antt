-- ===== src/Pubsub/Held.antt =====
-- How a handler that waits keeps the closing of a connection from finishing.
use cloud_sdk_go.Base.{ℕ, ◌+◌, ◌≡◌, true, false}
use cloud_sdk_go.Pubsub.Crew.{Crew, processor_released, work, event, outage, Run, here, next}

-- How often in a run a handler that the processor called was released.
abbrev pub releases : {c d : Crew} → Run c d → ℕ
releases here = 0
releases (next r (work w)) = releases r
releases (next r (event (processor_released a e))) = releases r + 1
releases (next r (event e)) = releases r
releases (next r (outage o)) = releases r

-- The processor waits in a handler.
abbrev IsHanging : Crew → Type 0
IsHanging c = (c.processor ≡ true) × (c.processor_held ≡ true) × (c.finished ≡ false)
