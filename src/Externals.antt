-- ===== src/Externals.antt =====
-- What the program takes from outside: the assertion mode, time, identifiers, encodings, digests
-- and signatures. None of it is defined here: a definition that uses one has it as an argument.
use logryph.Base.{[], ◌∷◌, ◌<◌, length, ℕ, ◌≡◌, Bool, true, Option, some, List, String}
use logryph.Event.{Time}
use logryph.Json.{Value, null, object, Fields, end, field}

abbrev pub Bytes : Type 0
Bytes = List ℕ

-- Every element is a byte.
abbrev pub IsBytes : Bytes → Type 0
IsBytes [] = Unit
IsBytes (b ∷ bs) = (b < 256) × IsBytes bs

pub record Externals : Type 0 where
  -- `assert.StrictMode`
  pub strict : Bool
  -- `Format(time.RFC3339Nano)` and `time.Parse(time.RFC3339Nano, _)`
  pub format_time : Time → String
  pub parse_time : String → Option Time
  -- `json.Marshal`, `json.Unmarshal` into an `interface{}`, and `jcs.Format`
  pub marshal : Value → Option String
  pub unmarshal : String → Option Value
  pub jcs_format : Value → Option String
  -- `sha256.Sum256` of the bytes of a text
  pub sha256 : String → Bytes
  -- Ed25519: the public key of a private one, `ed25519.Sign`, `ed25519.Verify`
  pub public_of : Bytes → Bytes
  pub ed25519_sign : Bytes → String → Bytes
  pub ed25519_verify : Bytes → String → Bytes → Bool
  -- The n-th identifier of `uuid.New` and the n-th reading of `time.Now`
  pub new_uuid : ℕ → String
  pub now : ℕ → Time

-- Two objects with the same keys in the same order, whose values have the same JSON text.
pub data SameText (x : Externals) : Fields → Fields → Type 0 where
  same_end : SameText x end end
  same_field :
      (k : String) (v w : Value) {m n : Fields}
      → x.marshal v ≡ x.marshal w
      → SameText x m n
      → SameText x (field k v m) (field k w n)

-- What the program relies on, as the libraries document it.
pub record JsonLaws (x : Externals) : Type 0 where
  -- An object is written from the texts of its values.
  pub marshal_object : (m n : Fields) → SameText x m n → x.marshal (object m) ≡ x.marshal (object n)
  pub marshal_null : x.marshal null ≡ some "null"

pub record CryptoLaws (x : Externals) : Type 0 where
  pub digest_bytes : (s : String) → IsBytes (x.sha256 s)
  pub digest_length : (s : String) → length (x.sha256 s) ≡ 32
  pub signature_bytes : (k : Bytes) (s : String) → IsBytes (x.ed25519_sign k s)
  pub signature_length : (k : Bytes) (s : String) → length (x.ed25519_sign k s) ≡ 64
  pub signed :
      (k : Bytes) (s : String) → x.ed25519_verify (x.public_of k) s (x.ed25519_sign k s) ≡ true
