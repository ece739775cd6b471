-- ===== src/HandlerMap/Sections.antt =====
-- `Set` and `GetAndDelete` of two goroutines at once (internal/pubsub/handlermap.go), the writer's
-- and the processor's (connection.go: writer, processor).
--
-- Each call tests the time without the lock, rotates the generations under the lock if the test
-- says so, and takes the lock again for its own access. A section is one of these three; any order
-- of sections is considered.
use cloud_sdk_go.Base.{ℕ, String, Bool, false, List, [], ◌∷◌, ◌++◌, if◌then◌else◌}
use cloud_sdk_go.HandlerMap.Defs.{HandlerMap, Call, is_expired, rotate, take_handler, put_handler}

-- The map, and which goroutine has passed the test and not yet rotated.
pub record Shared (H : Type 0) : Type 0 where
  pub handlers : HandlerMap H
  pub writer_due : Bool
  pub processor_due : Bool

pub data Goroutine : Type 0 where
  writer processor : Goroutine

pub data Section (H : Type 0) : Type 0 where
  tests : Goroutine → (now : ℕ) → Section H
  rotates : Goroutine → (reset : ℕ) → Section H
  puts : String → H → Section H
  takes : String → Section H

module _ {H : Type 0} where
  abbrev pub is_due : Goroutine → Shared H → Bool
  is_due writer s = s.writer_due
  is_due processor s = s.processor_due

  abbrev pub set_due : Goroutine → Bool → Shared H → Shared H
  set_due writer due s = record s { writer_due = due }
  set_due processor due s = record s { processor_due = due }

  -- A rotation, if the goroutine's test has passed.
  unfoldable pub rotate_due : Goroutine → ℕ → Shared H → Shared H × List (Call H)
  rotate_due g reset s =
      let (rotated, calls) = rotate reset s.handlers in
      if is_due g s then (set_due g false (record s { handlers = rotated }), calls) else (s, [])

  unfoldable pub section : Section H → Shared H → Shared H × List (Call H)
  unfolding rotate_due put_handler take_handler
  section (tests g now) s = (set_due g (is_expired now s.handlers) s, [])
  section (rotates g reset) s = rotate_due g reset s
  section (puts id h) s = (record s { handlers = put_handler id h s.handlers }, [])
  section (takes id) s = (record s { handlers = (take_handler id s.handlers).1 }, [])

  unfoldable pub sections : List (Section H) → Shared H → Shared H × List (Call H)
  unfolding section
  sections [] s = (s, [])
  sections (x ∷ xs) s =
      let (s', calls) = section x s in let (s'', more) = sections xs s' in (s'', calls ++ more)
