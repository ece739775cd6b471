-- ===== src/Query/Upload.antt =====
-- How a large body is uploaded (api.go).
use cloud_sdk_go.Base.{
  ℕ, zero, suc, ◌+◌, String, Option, none, some, List, [], ◌∷◌, length, take, drop, get_elem?, ltb,
  leb, ◌==◌, if◌then◌else◌, Failure, message, Result, ok, err, ◌>>=◌,
}
use cloud_sdk_go.App.Linking.{Outcome, panics, returns}
use cloud_sdk_go.Query.Types.{HttpReply, failed, replied, Limits}

abbrev pub too_large : Failure
too_large = message "payload too large for this device"

-- `io.ReadAll(io.LimitReader(reader, size))`: the next bytes. The reader's error shows when fewer
-- than `size` bytes are left.
unfoldable pub read_part : ℕ → Option Failure → List ℕ → Result (List ℕ)
read_part size none bytes = ok (take size bytes)
read_part size (some e) bytes = if leb size (length bytes) then ok (take size bytes) else err e

abbrev after_read : {A : Type 0} → Result (List ℕ) → (Failure → A) → (List ℕ → A) → A
after_read (ok part) bad good = good part
after_read (err e) bad good = bad e

-- The loop that reads the parts: the parts that are handed to an uploader, and how it ends. Every
-- round takes a byte at least, so the number of bytes and one more is fuel enough.
unfoldable pub read_parts :
    Limits → ℕ → Option Failure → ℕ → List ℕ → List (List ℕ) × Result (Unit {0})
unfolding read_part
read_parts limits zero e total bytes = ([], err (message "out of fuel"))
read_parts limits (suc fuel) e total bytes =
    after_read (read_part limits.part_size e bytes) (λ x. ([], err x))
      (λ part.
        let total' = total + length part in
        let (parts, end) = read_parts limits fuel e total' (drop limits.part_size bytes) in
        if length part == 0
        then ([], ok tt)
        else if ltb limits.multipart_request_object_max total'
        then ([], err too_large)
        else (part ∷ parts, end))

-- The error of one upload.
unfoldable pub upload_failure : HttpReply (Unit {0}) → Option Failure
upload_failure (failed e) = some e
upload_failure (replied status _) =
    if status == 200 then none else some (message "upload failed for part")

-- The uploads of the parts from number `i` on: a part with no URL is an index out of range. Of
-- several errors, which run side by side, the model keeps that of the first part.
unfoldable pub upload_parts :
    (ℕ → String → List ℕ → HttpReply (Unit {0}))
    → List String
    → ℕ
    → List (List ℕ)
    → Outcome (Option Failure)
unfolding upload_failure
upload_parts put urls i [] = returns none
upload_parts put urls i (part ∷ parts) =
    let rest = upload_parts put urls (suc i) parts in
    elim (get_elem? urls i) [
      | none ↦ panics
      | some url ↦ elim rest [
        | panics ↦ panics
        | returns later ↦ elim (upload_failure (put i url part)) [
          | none ↦ returns later
          | some e ↦ returns (some e)
        ]
      ]
    ]

-- The multipart branch: every part that was read is uploaded before the loop's error, if any,
-- is returned.
unfoldable pub upload_multipart :
    Limits
    → (ℕ → String → List ℕ → HttpReply (Unit {0}))
    → List String
    → Option Failure
    → List ℕ
    → Outcome (Result (Unit {0}))
unfolding read_parts upload_parts
upload_multipart limits put urls e bytes =
    let (parts, end) = read_parts limits (suc (length bytes)) e 0 bytes in
    elim (upload_parts put urls 0 parts) [
      | panics ↦ panics
      | returns failure ↦ elim end [
        | err x ↦ returns (err x)
        | ok _ ↦ elim failure [ none ↦ returns (ok tt) | some x ↦ returns (err x) ]
      ]
    ]

-- The single upload: one byte more than the limit is read.
unfoldable pub upload_single :
    Limits
    → (String → List ℕ → HttpReply (Unit {0}))
    → String
    → Option Failure
    → List ℕ
    → Result (Unit {0})
unfolding read_part
upload_single limits put url e bytes = read_part (suc limits.request_object_max) e bytes >>= λ b.
    if ltb limits.request_object_max (length b) then err too_large else elim (put url b) [
      | failed x ↦ err x
      | replied status _ ↦
          if status == 200 then ok tt else err (message "failed to upload request object")
    ]
