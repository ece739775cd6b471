-- ===== src/HandlerMap/Lifetime.antt =====
-- How long a handler stays in the map.
use cloud_sdk_go.Base.{
  ℕ, ◌+◌, ◌≤◌, ◌<◌, ◌≡◌, refl, ap, ◌∙◌, ◌≢◌, ◌⊎◌, inl, String, none, some, List, [], ◌∷◌, arith,
  lookup, lookup-insert, lookup-erase, eq_iff, eq_refl, All,
}
use cloud_sdk_go.HandlerMap.Defs.{
  HandlerMap, expire_check, take_handler, put_handler, get_and_delete, set_handler,
}

-- A call of `Set` or `GetAndDelete`, with the two clock readings of its check.
pub data Op (H : Type 0) : Type 0 where
  set : (now reset : ℕ) → String → H → Op H
  get : (now reset : ℕ) → String → Op H

module _ {H : Type 0} where
  abbrev pub op_now : Op H → ℕ
  op_now (set now reset id h) = now
  op_now (get now reset id) = now

  abbrev pub op_reset : Op H → ℕ
  op_reset (set now reset id h) = reset
  op_reset (get now reset id) = reset

  abbrev pub op_id : Op H → String
  op_id (set now reset id h) = id
  op_id (get now reset id) = id

  -- The map after one call.
  unfoldable pub after : Op H → HandlerMap H → HandlerMap H
  after (set now reset id h) m = (set_handler now reset id h m).0
  after (get now reset id) m = (get_and_delete now reset id m).1

  unfoldable pub after_all : List (Op H) → HandlerMap H → HandlerMap H
  after_all [] m = m
  after_all (op ∷ ops) m = after_all ops (after op m)

  -- The call concerns another id, between `from` and `until` on a clock that does not run back.
  pub record IsOther (id : String) (from until : ℕ) (op : Op H) : Type 0 where
    pub other : op_id op ≢ id
    pub early : from ≤ op_now op
    pub late : op_now op < until
    pub forward : op_now op ≤ op_reset op

  -- The handler of `id` is in the younger generation, or in the older one until `until` at least.
  abbrev Holds : String → H → ℕ → HandlerMap H → Type 0
  Holds id h until m =
      (lookup id m.current_handlers ≡ some h)
      ⊎ ((lookup id m.current_handlers ≡ none)
          × (lookup id m.older_handlers ≡ some h)
          × (until ≤ m.new_expire_time))

  expire_check-Holds :
      (now reset : ℕ) (id : String) (h : H) (from until : ℕ) (m : HandlerMap H)
      → from + m.expire_duration ≡ until
      → from ≤ now
      → now < until
      → now ≤ reset
      → Holds id h until m
      → Holds id h until (expire_check now reset m).0
  unfolding expire_check lookup
  expire_check-Holds now reset id h from until m d a b c held = ground arith

  expire_check-duration :
      (now reset : ℕ) (m : HandlerMap H)
      → (expire_check now reset m).0.expire_duration ≡ m.expire_duration
  unfolding expire_check
  expire_check-duration now reset m = ground arith

  put_handler-Holds :
      (id j : String) (g h : H) (until : ℕ) (m : HandlerMap H)
      → j ≢ id
      → Holds id h until m
      → Holds id h until (put_handler j g m)
  unfolding put_handler
  put_handler-Holds id j g h until m ne held =
      ground (arith, lookup-insert id j g m.current_handlers, eq_iff j id)

  take_handler-Holds :
      (id j : String) (h : H) (until : ℕ) (m : HandlerMap H)
      → j ≢ id
      → Holds id h until m
      → Holds id h until (take_handler j m).1
  unfolding take_handler
  take_handler-Holds id j h until m ne held =
      ground (
        arith,
        lookup-erase id j m.current_handlers,
        lookup-erase id j m.older_handlers,
        eq_iff j id,
      )

  after-duration : (op : Op H) (m : HandlerMap H) → (after op m).expire_duration ≡ m.expire_duration
  unfolding after set_handler get_and_delete put_handler take_handler
  after-duration (set now reset id h) m = expire_check-duration now reset m
  after-duration (get now reset id) m = ground (arith, expire_check-duration now reset m)

  after-Holds :
      (op : Op H) (id : String) (h : H) (from until : ℕ) (m : HandlerMap H)
      → from + m.expire_duration ≡ until
      → IsOther id from until op
      → Holds id h until m
      → Holds id h until (after op m)
  unfolding after set_handler get_and_delete
  after-Holds (set now reset j g) id h from until m d o held =
      put_handler-Holds id j g h until (expire_check now reset m).0 o.other
        (expire_check-Holds now reset id h from until m d o.early o.late o.forward held)
  after-Holds (get now reset j) id h from until m d o held =
      take_handler-Holds id j h until (expire_check now reset m).0 o.other
        (expire_check-Holds now reset id h from until m d o.early o.late o.forward held)

  after_all-Holds :
      (ops : List (Op H)) (id : String) (h : H) (from until : ℕ) (m : HandlerMap H)
      → from + m.expire_duration ≡ until
      → All (IsOther id from until) ops
      → Holds id h until m
      → Holds id h until (after_all ops m)
  unfolding after_all
  after_all-Holds [] id h from until m d o held = held
  after_all-Holds (op ∷ ops) id h from until m d o held =
      after_all-Holds ops id h from until (after op m) (rw (after-duration op m) d) o.1
        (after-Holds op id h from until m d o.0 held)

  after_all-duration :
      (ops : List (Op H)) (m : HandlerMap H) → (after_all ops m).expire_duration ≡ m.expire_duration
  unfolding after_all
  after_all-duration [] m = refl
  after_all-duration (op ∷ ops) m = after_all-duration ops (after op m) ∙ after-duration op m

  take_handler-found :
      (id : String) (h : H) (until : ℕ) (m : HandlerMap H)
      → Holds id h until m
      → (take_handler id m).0 ≡ some h
  unfolding take_handler
  take_handler-found id h until m held = ground arith

  put_handler_self :
      (id : String) (h : H) (m : HandlerMap H)
      → lookup id (put_handler id h m).current_handlers ≡ some h
  unfolding put_handler
  put_handler_self id h m = simp (lookup-insert, eq_refl)

  -- When calls do not overlap, a handler that is set while its check reads `from` is still there for
  -- every check before `from` plus the map's duration: whatever calls for other ids come between,
  -- `GetAndDelete` returns it, on a clock that does not run back.
  pub set-get_within_duration :
      (m : HandlerMap H) (id : String) (h : H) (from reset now later : ℕ) (ops : List (Op H))
      → All (IsOther id from (from + m.expire_duration)) ops
      → from ≤ now
      → now < from + m.expire_duration
      → now ≤ later
      → (get_and_delete now later id (after_all ops (set_handler from reset id h m).0)).0 ≡ some h
  unfolding get_and_delete set_handler put_handler
  set-get_within_duration m id h from reset now later ops o a b c =
      let m₀ = put_handler id h (expire_check from reset m).0 in
      let e : m₀.expire_duration ≡ m.expire_duration = expire_check-duration from reset m in
      let until = from + m.expire_duration in
      let d : from + m₀.expire_duration ≡ until = ap (λ n. from + n) e in
      let held =
        after_all-Holds ops id h from until m₀ d o
          (inl (put_handler_self id h (expire_check from reset m).0)) in
      take_handler-found id h until (expire_check now later (after_all ops m₀)).0 (
        expire_check-Holds now later id h from until (after_all ops m₀)
          (rw (after_all-duration ops m₀) d) a b c held)
