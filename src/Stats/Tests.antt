-- ===== src/Stats/Tests.antt =====
-- A test of the history that describes the flags of a stream.
use cloud_sdk_go.Base.{◌≡◌, refl, List, [], ◌∷◌, true}
use cloud_sdk_go.Stats.Counters.{
  Op, connected, reconnected, responded, dispatched, processing, processed, begins, ends,
}
use cloud_sdk_go.Stats.Activity.{idle, history}

abbrev calls : List Op
calls =
    connected 10
    ∷ begins 11 "a"
    ∷ responded 20 "a" "c1" 2
    ∷ dispatched "a"
    ∷ processing 21 "a" "m1" "t"
    ∷ processed "a"
    ∷ reconnected
    ∷ begins 30 "b"
    ∷ dispatched "a"
    ∷ processing 31 "a" "m2" "t"
    ∷ ends "b"
    ∷ []

calls-history : history "a" calls idle ≡ record { subscribed = true; busy = true }
unfolding history
calls-history = refl
