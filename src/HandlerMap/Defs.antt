-- ===== src/HandlerMap/Defs.antt =====
-- `handlerMap` and its operations (internal/pubsub/handlermap.go).
--
-- An instant is a number of nanoseconds since Go's zero time. `now` is what `time.Now()` returns
-- in the test of `expireCheck`, `reset` what it returns when the next expiry is set. The calls
-- that `expireCheck` makes of expired handlers are returned, each with its response.
--
-- The source tests the time without the lock, and takes the lock once to rotate the generations and
-- once more to insert or to remove. `set_handler` and `get_and_delete` are these in a row; how the
-- parts of two goroutines interleave is in HandlerMap/Sections.
use cloud_sdk_go.Base.{
  ℕ, ◌+◌, String, Bool, not, Option, none, some, List, [], map, Dict, lookup, insert, erase, ltb,
  if◌then◌else◌, message,
}
use cloud_sdk_go.Rpc.Messages.{Response, new_error_response}

pub record HandlerMap (H : Type 0) : Type 0 where
  pub expire_duration : ℕ
  pub new_expire_time : ℕ
  pub current_handlers : Dict H
  pub older_handlers : Dict H

-- A handler that is called: its id, the handler and the response.
pub record Call (H : Type 0) : Type 0 where
  pub id : String
  pub handler : H
  pub response : Response

module _ {H : Type 0} where
  unfoldable pub new_handler_map : ℕ → ℕ → HandlerMap H
  new_handler_map now duration = record {
    expire_duration = duration;
    new_expire_time = now + duration;
    current_handlers = [];
    older_handlers = [];
  }

  -- The call of an expired handler.
  abbrev pub timed_out : String × H → Call H
  timed_out (id, handler) = record {
    id = id;
    handler = handler;
    response = new_error_response id (message "timed out waiting for response from server");
  }

  -- The test of `expireCheck`, which is made without the lock.
  abbrev pub is_expired : ℕ → HandlerMap H → Bool
  is_expired now m = not (ltb now m.new_expire_time)

  -- The rest of `expireCheck`, under the lock.
  abbrev pub rotate : ℕ → HandlerMap H → HandlerMap H × List (Call H)
  rotate reset m = (
    record m {
      new_expire_time = reset + m.expire_duration;
      older_handlers = m.current_handlers;
      current_handlers = [];
    },
    map timed_out m.older_handlers,
  )

  -- `expireCheck`, when no other goroutine is in it.
  unfoldable pub expire_check : ℕ → ℕ → HandlerMap H → HandlerMap H × List (Call H)
  expire_check now reset m = if ltb now m.new_expire_time then (m, []) else rotate reset m

  -- Removes the handler from the younger generation, and from the older if it is not there.
  unfoldable pub take_handler : String → HandlerMap H → Option H × HandlerMap H
  take_handler id m = elim (lookup id m.current_handlers) [
    | some h ↦ (some h, record m { current_handlers = erase id m.current_handlers })
    | none ↦ (
      lookup id m.older_handlers,
      record m {
        current_handlers = erase id m.current_handlers;
        older_handlers = erase id m.older_handlers;
      },
    )
  ]

  unfoldable pub get_and_delete :
      ℕ → ℕ → String → HandlerMap H → Option H × HandlerMap H × List (Call H)
  unfolding expire_check take_handler
  get_and_delete now reset id m =
      let (checked, calls) = expire_check now reset m in
      let (found, left) = take_handler id checked in (found, left, calls)

  -- The insertion that follows the check.
  unfoldable pub put_handler : String → H → HandlerMap H → HandlerMap H
  put_handler id handler m = record m { current_handlers = insert id handler m.current_handlers }

  unfoldable pub set_handler : ℕ → ℕ → String → H → HandlerMap H → HandlerMap H × List (Call H)
  unfolding expire_check put_handler
  set_handler now reset id handler m =
      let (checked, calls) = expire_check now reset m in (put_handler id handler checked, calls)
