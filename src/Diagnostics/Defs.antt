-- ===== src/Diagnostics/Defs.antt =====
-- The classification of a stream (internal/pubsub/read_stream_diagnostics.go).
--
-- The decoders of a cursor, base64 in four alphabets and JSON, are arguments.
use cloud_sdk_go.Base.{
  ℕ, String, Bool, true, false, ◌||◌, ◌&&◌, not, Option, none, some, List, [], ◌∷◌, ℤ, pos, sub_ℕ,
  ltb, ltb_ℤ, ltb64, sub64, ◌==◌, str_eq, is_empty, if◌then◌else◌,
}
use cloud_sdk_go.Stats.Defs.{StreamStatsSnapshot}

pub record CursorStream : Type 0 where
  pub stream : String
  pub partition : ℕ
  pub offset : ℕ

-- The first base64 alphabet that decodes the cursor.
unfoldable pub first_decoded : List (String → Option String) → String → Option String
first_decoded [] text = none
first_decoded (decode ∷ rest) text = elim (decode text) [
  | some raw ↦ some raw
  | none ↦ first_decoded rest text
]

unfoldable pub find_stream : String → List CursorStream → Option (ℕ × ℕ)
find_stream stream [] = none
find_stream stream (c ∷ cs) =
    if str_eq c.stream stream then some (c.partition, c.offset) else find_stream stream cs

abbrev pub or_none {ℓ κ} : {A : Type ℓ} {B : Type κ} → Option A → (A → Option B) → Option B
or_none none f = none
or_none (some a) f = f a

-- The decoders of encoding/base64 and of encoding/json that are called.
pub record Decoders : Type 0 where
  pub std : String → Option String
  pub raw_std : String → Option String
  pub url : String → Option String
  pub raw_url : String → Option String
  pub unmarshal : String → Option (List CursorStream)

unfoldable pub decode_consume_offset : Decoders → String → String → Option (ℕ × ℕ)
unfolding first_decoded find_stream
decode_consume_offset d consume_ctx stream =
    let encodings = d.std ∷ d.raw_std ∷ d.url ∷ d.raw_url ∷ [] in
    if is_empty consume_ctx
    then none
    else or_none (first_decoded encodings consume_ctx)
        (λ raw. or_none (d.unmarshal raw) (find_stream stream))

pub data StreamState : Type 0 where
  awaiting_activity healthy_delivery broker_quiet : StreamState
  sdk_processing_blocked disconnected reconnecting : StreamState

pub record StreamStatsDelta : Type 0 where
  pub broker_responses : ℕ
  pub broker_messages : ℕ
  pub dispatch_starts : ℕ
  pub sdk_processing_starts : ℕ
  pub sdk_processing_ends : ℕ
  pub cursor_changes : ℕ

unfoldable pub non_negative_delta : ℕ → ℕ → ℕ
non_negative_delta current previous = if ltb64 current previous then 0 else sub64 current previous

unfoldable pub diagnostic_delta : StreamStatsSnapshot → StreamStatsSnapshot → StreamStatsDelta
unfolding non_negative_delta
diagnostic_delta current previous = record {
  broker_responses = non_negative_delta current.broker_responses previous.broker_responses;
  broker_messages = non_negative_delta current.broker_messages previous.broker_messages;
  dispatch_starts = non_negative_delta current.dispatch_starts previous.dispatch_starts;
  sdk_processing_starts =
      non_negative_delta current.sdk_processing_starts previous.sdk_processing_starts;
  sdk_processing_ends = non_negative_delta current.sdk_processing_ends previous.sdk_processing_ends;
  cursor_changes = non_negative_delta current.cursor_changes previous.cursor_changes;
}

unfoldable pub elapsed_since : ℕ → ℕ → ℤ
elapsed_since now timestamp =
    if (timestamp == 0) || ltb now timestamp then pos 0 else sub_ℕ now timestamp

unfoldable pub classify_stream :
    ℕ
    → (disconnected reconnecting : Bool) → StreamStatsSnapshot
    → StreamStatsDelta
    → ℤ
    → StreamState
unfolding elapsed_since
classify_stream now is_disconnected is_reconnecting current delta threshold =
    if ltb_ℤ (pos 0) threshold
      && current.sdk_processing_active
      && not (ltb_ℤ (elapsed_since now current.last_sdk_processing_at) threshold)
    then sdk_processing_blocked
    else if is_reconnecting
    then reconnecting
    else if is_disconnected
    then disconnected
    else if ltb64 0 delta.broker_messages || ltb64 0 delta.cursor_changes
    then healthy_delivery
    else if ltb64 0 delta.broker_responses
    then broker_quiet
    else awaiting_activity

abbrev pub state_eq : StreamState → StreamState → Bool
state_eq awaiting_activity awaiting_activity = true
state_eq healthy_delivery healthy_delivery = true
state_eq broker_quiet broker_quiet = true
state_eq sdk_processing_blocked sdk_processing_blocked = true
state_eq disconnected disconnected = true
state_eq reconnecting reconnecting = true
state_eq _ _ = false

-- The previous state, if there is one.
unfoldable pub diagnostic_state_changed : Option StreamState → StreamState → Bool
diagnostic_state_changed none current = true
diagnostic_state_changed (some previous) current = not (state_eq previous current)
