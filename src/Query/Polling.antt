-- ===== src/Query/Polling.antt =====
-- The pauses between polls.
use cloud_sdk_go.Base.{ℕ, ◌*◌, ◌≤◌, ◌≡◌, List, [], ◌∷◌, arith, min}
use cloud_sdk_go.Query.Types.{QueryResponse, failed, replied, Poll, cancelled, polled, Limits}
use cloud_sdk_go.Query.Defs.{next_pause, poll_status}

-- The pauses from a first one on: each doubles the one before, up to the limit.
abbrev pub IsBackoff : ℕ → ℕ → List ℕ → Type 0
IsBackoff limit pause [] = Unit
IsBackoff limit pause (p ∷ ps) =
    (p ≡ pause) × (p ≤ limit) × IsBackoff limit (min (pause * 2) limit) ps

next_pause-min :
    (limits : Limits) (pause : ℕ)
    → pause ≤ limits.status_poll_time_max
    → next_pause limits pause ≡ min (pause * 2) limits.status_poll_time_max
unfolding next_pause
next_pause-min limits pause h = ground arith

-- Whatever the polls return, the pauses begin with the given one, double from one to the next and
-- never pass the limit, if the first does not.
pub poll_status-IsBackoff :
    (limits : Limits) (pause : ℕ) (polls : List Poll) (resp : QueryResponse)
    → pause ≤ limits.status_poll_time_max
    → IsBackoff limits.status_poll_time_max pause (poll_status limits pause polls resp).0
unfolding poll_status
poll_status-IsBackoff limits pause [] resp h = ground arith
poll_status-IsBackoff limits pause (cancelled e ∷ polls) resp h = ground arith
poll_status-IsBackoff limits pause (polled (failed e) ∷ polls) resp h = ground arith
poll_status-IsBackoff limits pause (polled (replied status new) ∷ polls) resp h =
    let next = next_pause-min limits pause h in
    let ih = poll_status-IsBackoff limits (next_pause limits pause) polls new (omega arith) in
    ground arith
