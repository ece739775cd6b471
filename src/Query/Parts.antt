-- ===== src/Query/Parts.antt =====
-- The parts of a multipart upload.
use cloud_sdk_go.Base.{
  ℕ, zero, suc, ◌+◌, ◌≤◌, ◌<◌, ◌≡◌, refl, sym, ap, ◌∙◌, inl, inr, none, List, [], ◌∷◌, ◌++◌, All,
  arith, length, take, drop, ltb, ◌==◌, Bool-cases, ok, err,
}
use cloud_sdk_go.Query.Types.{Limits}
use cloud_sdk_go.Query.Upload.{too_large, read_parts}

abbrev pub join : List (List ℕ) → List ℕ
join [] = []
join (p ∷ ps) = p ++ join ps

take-drop : (n : ℕ) (xs : List ℕ) → take n xs ++ drop n xs ≡ xs
take-drop zero xs = refl
take-drop (suc n) [] = refl
take-drop (suc n) (x ∷ xs) = ap (λ ys. x ∷ ys) (take-drop n xs)

length-take-drop : (n : ℕ) (xs : List ℕ) → length (take n xs) + length (drop n xs) ≡ length xs
length-take-drop zero xs = omega arith
length-take-drop (suc n) [] = omega arith
length-take-drop (suc n) (x ∷ xs) = omega (arith, length-take-drop n xs)

length-take-le : (n : ℕ) (xs : List ℕ) → length (take n xs) ≤ n
length-take-le zero xs = omega arith
length-take-le (suc n) [] = omega arith
length-take-le (suc n) (x ∷ xs) = omega (arith, length-take-le n xs)

length-take-pos : (n : ℕ) (xs : List ℕ) → 0 < n → 0 < length xs → 0 < length (take n xs)
length-take-pos zero xs a b = absurd (omega arith)
length-take-pos (suc n) [] a b = absurd (omega arith)
length-take-pos (suc n) (x ∷ xs) a b = omega arith

-- A part that is uploaded.
abbrev pub IsPart : ℕ → List ℕ → Type 0
IsPart size part = (0 < length part) × (length part ≤ size)

empty_eq : (xs : List ℕ) → length xs ≡ 0 → xs ≡ []
empty_eq [] e = refl
empty_eq (x ∷ xs) e = absurd (omega arith)

module _ (limits : Limits) (size_pos : 0 < limits.part_size) where
  open limits use {part_size, multipart_request_object_max}

  -- With a positive part size and more fuel than bytes, as `upload_multipart` gives, a body
  -- within the limit comes apart into parts that join to the body, none of them empty or longer
  -- than the part size, and no error is returned.
  pub read_parts-join :
      (fuel total : ℕ) (bytes : List ℕ)
      → length bytes < fuel
      → total + length bytes ≤ multipart_request_object_max
      → let (parts, end) = read_parts limits fuel none total bytes in
        (end ≡ ok tt) × (join parts ≡ bytes) × All (IsPart part_size) parts
  unfolding read_parts
  read_parts-join zero total bytes f b = absurd (omega arith)
  read_parts-join (suc fuel) total bytes f b =
      let part = take part_size bytes in
      let rest = drop part_size bytes in
      let lengths = length-take-drop part_size bytes in
      let bound = length-take-le part_size bytes in
      elim (Bool-cases (length part == 0)) [
        | inl e ↦
            rw e (refl, sym (empty_eq bytes (ground (arith, length-take-pos part_size bytes))), tt)
        | inr e ↦ elim (Bool-cases (ltb multipart_request_object_max (total + length part))) [
          | inl x ↦ absurd (ground arith)
          | inr x ↦
              let ih =
                read_parts-join fuel (total + length part) rest (ground arith) (ground arith) in
              rw (e, x)
                (
                  ih.0,
                  ap (λ ps. part ++ ps) ih.1 ∙ take-drop part_size bytes,
                  ((ground arith, bound), ih.2),
                )
        ]
      ]

  -- With a positive part size and more fuel than bytes, a body beyond the limit is refused as too
  -- large.
  pub read_parts-too_large :
      (fuel total : ℕ) (bytes : List ℕ)
      → length bytes < fuel
      → total ≤ multipart_request_object_max
      → multipart_request_object_max < total + length bytes
      → (read_parts limits fuel none total bytes).1 ≡ err too_large
  unfolding read_parts
  read_parts-too_large zero total bytes f t b = absurd (omega arith)
  read_parts-too_large (suc fuel) total bytes f t b = ground (
    arith,
    length-take-drop part_size bytes,
    length-take-pos part_size bytes,
    read_parts-too_large fuel (total + length (take part_size bytes)) (drop part_size bytes),
  )
