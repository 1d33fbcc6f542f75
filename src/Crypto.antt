-- ===== src/Crypto.antt =====
-- internal/crypto: the event hash and the signer.
pub mod Hex
pub mod Laws
pub mod Zeros
pub mod Keys
pub mod Saved
use Prim.Native.String as Str
use logryph.Base.{
  ℕ, Bool, true, false, not, ◌||◌, Option, none, some, String, ◌==◌, is_set, count_char, repeat,
  nat_eq,
}
use logryph.Base.Result.{Error, message, Result, ok, err, panic, ◌>>=◌, ◌>>◌}
use logryph.Assert.{check}
use logryph.Json.{Value, null}
use logryph.Externals.{Externals, Bytes}
use logryph.Crypto.Hex.{hex_encode, hex_decode}

-- 64 zeros
abbrev pub genesis_prev_hash : String
genesis_prev_hash = "0000000000000000000000000000000000000000000000000000000000000000"

-- `payload != nil`
unfoldable pub is_present : Value → Bool
is_present null = false
is_present _ = true

-- The result of a call whose error goes through `assert.Check(err == nil, _)` first.
asserted {ℓ} : {A : Type ℓ} → Bool → String → Option A → Result A
asserted strict msg none = check strict false msg >> err (message msg)
asserted strict msg (some a) = ok a

or_error {ℓ} : {A : Type ℓ} → String → Option A → Result A
or_error msg none = err (message msg)
or_error msg (some a) = ok a

module _ (x : Externals) where
  open x use {strict, marshal, unmarshal, jcs_format, sha256}

  -- Steps 1 to 3: JSON, read back, in the canonical form of RFC 8785.
  unfoldable pub canonical_json : Value → Result String
  unfolding asserted or_error
  canonical_json payload = do
    json_bytes ← asserted strict "json marshal failed" (marshal payload)
    normalized ← asserted strict "json unmarshal failed" (unmarshal json_bytes)
    or_error "jcs format failed" (jcs_format normalized)

  -- SHA-256 of the previous hash followed by the canonical JSON of the payload, in hex.
  unfoldable pub calculate_event_hash : String → Value → Result String
  unfolding is_present
  calculate_event_hash prev_hash payload = do
    check strict (is_set prev_hash) "prev_hash must be non-empty"
    check strict (not (nat_eq (count_char b'0' prev_hash) 64) || (prev_hash == genesis_prev_hash))
        "invalid prev_hash format"
    check strict (is_present payload) "payload must not be nil"
    canonical ← canonical_json payload
    ok (hex_encode (sha256 (Str.◌++◌ prev_hash canonical)))

pub record Signer : Type 0 where
  pub private_key : Bytes
  pub public_key : Bytes

module _ (x : Externals) where
  open x use {ed25519_sign, ed25519_verify}

  unfoldable pub sign_hash : Signer → String → Result String
  sign_hash s hash = ok (hex_encode (ed25519_sign s.private_key hash))

  verify_decoded : Signer → String → Option Bytes → Bool
  verify_decoded s hash none = false
  verify_decoded s hash (some signature) = ed25519_verify s.public_key hash signature

  unfoldable pub verify_signature : Signer → String → String → Bool
  unfolding verify_decoded
  verify_signature s hash signature_hex = verify_decoded s hash (hex_decode signature_hex)

unfoldable pub get_public_key : Signer → String
get_public_key s = hex_encode s.public_key
