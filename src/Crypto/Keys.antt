-- ===== src/Crypto/Keys.antt =====
-- internal/crypto/signer.go: the key file, and the signer that is made of it. Permissions are not
-- modelled, and a file that cannot be read is not among the files.
use logryph.Base.{
  ℕ, ◌+◌, ◌≡◌, Option, none, some, List, [], ◌∷◌, String, nat_eq, if◌then◌else◌, length,
}
use logryph.Base.Assoc.{lookup, insert}
use logryph.Base.Result.{Error, message, wrapped, Result, ok, err, panic}
use logryph.Base.Exec.{Exec, pure, lift, with_context_in, ◌>>=◌, ◌>>◌}
use logryph.Externals.{Externals, Bytes, IsBytes}
use logryph.Crypto.{Signer, get_public_key}
use logryph.Crypto.Hex.{hex_encode, hex_decode}

-- What `os.WriteFile` does: it writes the text, or fails and leaves the file as it was, or fails
-- when a part is written.
pub data Write : Type 0 where
  written : Write
  refused : Write
  torn : String → Write

-- The files, what becomes of the next writes, and how often a key was generated.
pub record Disk : Type 0 where
  pub files : List (String × String)
  pub writes : List Write
  pub generated : ℕ

unfoldable pub next_write : List Write → Write × List Write
next_write [] = (written, [])
next_write (w ∷ ws) = (w, ws)

abbrev pub write_error : Error
write_error = message "write: input/output error"

unfoldable pub do_write : String → String → Write → Exec Disk (Unit {0})
do_write path data_ written d = (ok tt, record d { files = insert path data_ d.files })
do_write path data_ refused d = (err write_error, d)
do_write path data_ (torn s) d = (err write_error, record d { files = insert path s d.files })

unfoldable pub write_file : String → String → Exec Disk (Unit {0})
unfolding next_write do_write
write_file path data_ d =
    let (w, ws) = next_write d.writes in do_write path data_ w (record d { writes = ws })

-- `savePrivateKey`
unfoldable pub save_private_key : String → Bytes → Exec Disk (Unit {0})
unfolding write_file
save_private_key path key = write_file path (hex_encode key)

-- ed25519.PrivateKeySize
abbrev pub private_key_size : ℕ
private_key_size = 64

unfoldable pub sized : Option Bytes → Result Bytes
sized none = err (wrapped "decoding key" (message "encoding/hex: invalid"))
sized (some key) =
    if nat_eq (length key) private_key_size then ok key else err (message "invalid key size")

unfoldable pub from_file : Option String → Result Bytes
unfolding sized
from_file none = err (message "open: no such file or directory")
from_file (some data_) = sized (hex_decode data_)

-- `loadPrivateKey`
unfoldable pub load_private_key : String → Disk → Result Bytes
unfolding from_file
load_private_key path d = from_file (lookup path d.files)

unfoldable pub or_entropy : Option (Bytes × Bytes) → Result (Bytes × Bytes)
or_entropy none = err (message "crypto/rand: entropy")
or_entropy (some keys) = ok keys

module _ (x : Externals) (generate : ℕ → Option (Bytes × Bytes)) where
  -- `ed25519.GenerateKey(rand.Reader)`, whose n-th call gives `generate n`: the public and the
  -- private key.
  unfoldable pub generate_key : Exec Disk (Bytes × Bytes)
  unfolding or_entropy
  generate_key d = (or_entropy (generate d.generated), record d { generated = d.generated + 1 })

  -- A new key, saved; the two contexts of its errors differ between the callers.
  unfoldable pub new_keys : String → String → String → Exec Disk Signer
  unfolding generate_key
  new_keys generating saving path = do
    keys ← with_context_in generating generate_key
    with_context_in saving (save_private_key path keys.1)
    pure (record { private_key = keys.1; public_key = keys.0 })

  unfoldable pub from_load : Result Bytes → String → Exec Disk Signer
  unfolding new_keys
  from_load (ok key) path = pure (record { private_key = key; public_key = x.public_of key })
  from_load (err e) path = new_keys "generating keypair" "saving private key" path
  from_load (panic e) path = lift (panic e)

  -- `NewSigner`
  unfoldable pub new_signer : String → Exec Disk Signer
  unfolding from_load
  new_signer path d = from_load (load_private_key path d) path d

  -- The new keys are used where they were saved.
  unfoldable pub rotated :
      Signer → Result Signer × Disk → Result (String × String) × (Signer × Disk)
  rotated s (ok t, e) = (ok (get_public_key s, get_public_key t), (t, e))
  rotated s (err why, e) = (err why, (s, e))
  rotated s (panic why, e) = (panic why, (s, e))

  -- `RotateKey`: the old and the new public key.
  unfoldable pub rotate_key : String → Exec (Signer × Disk) (String × String)
  unfolding new_keys rotated
  rotate_key path (s, d) = rotated s (new_keys "generating new keypair" "saving rotated key" path d)

  -- What is documented of generated keys.
  pub record KeyLaws : Type 0 where
    pub key_bytes : (n : ℕ) {p k : Bytes} → generate n ≡ some (p, k) → IsBytes k
    pub key_length : (n : ℕ) {p k : Bytes} → generate n ≡ some (p, k) → length k ≡ 64
    pub key_public : (n : ℕ) {p k : Bytes} → generate n ≡ some (p, k) → p ≡ x.public_of k
