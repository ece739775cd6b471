-- ===== src/App/Credentials.antt =====
-- The keys with which the application's requests are authorised (app.go: Credentials, the request
-- hook of New, the provider of pubsubConnect; util.go: zeroByteArray).
--
-- A key is a list of bytes. `provided` is what `GetCredentials` returns; the slice that it returns
-- is shared with the application, so what becomes of it is part of a result.
use cloud_sdk_go.Base.{
  ℕ, ◌≡◌, refl, subst, arith, Bool, true, false, List, [], ◌∷◌, All, Result, ok, err, ◌>>=◌,
  if◌then◌else◌,
}

unfoldable pub zero_byte_array : List ℕ → List ℕ
zero_byte_array [] = []
zero_byte_array (b ∷ bytes) = 0 ∷ zero_byte_array bytes

-- A key and the slice of the credentials after it was read.
pub record Key : Type 0 where
  pub key : List ℕ
  pub left : List ℕ

-- The hook that runs before each request of the HTTP client.
unfoldable pub request_key : Bool → Result (List ℕ) → List ℕ → Result Key
unfolding zero_byte_array
request_key has_get_credentials provided api_key =
    if has_get_credentials
    then (provided >>= λ bytes. ok (record { key = bytes; left = zero_byte_array bytes }))
    else ok (record { key = api_key; left = [] })

-- The provider of a connection, whose key is the slice itself.
unfoldable pub connection_key : Bool → Result (List ℕ) → List ℕ → Result Key
connection_key has_get_credentials provided api_key =
    if has_get_credentials
    then (provided >>= λ bytes. ok (record { key = bytes; left = bytes }))
    else ok (record { key = api_key; left = [] })

zero_byte_array-zero : (bytes : List ℕ) → All (λ b. b ≡ 0) (zero_byte_array bytes)
unfolding zero_byte_array
zero_byte_array-zero [] = tt
zero_byte_array-zero (b ∷ bytes) = (refl, zero_byte_array-zero bytes)

-- The hook leaves no byte of the credentials in their slice.
pub request_key-zero :
    (has_get_credentials : Bool) (provided : Result (List ℕ)) (api_key : List ℕ) (k : Key)
    → request_key has_get_credentials provided api_key ≡ ok k
    → All (λ b. b ≡ 0) k.left
unfolding request_key
request_key-zero false provided api_key k e =
    let left : [] ≡ k.left = ground arith in subst (All (λ b. b ≡ 0)) left tt
request_key-zero true (err x) api_key k e = absurd (ground arith)
request_key-zero true (ok bytes) api_key k e =
    let left : zero_byte_array bytes ≡ k.left = ground arith in
    subst (All (λ b. b ≡ 0)) left (zero_byte_array-zero bytes)
