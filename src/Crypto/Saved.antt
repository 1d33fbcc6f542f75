-- ===== src/Crypto/Saved.antt =====
-- internal/crypto/signer.go: a key that was saved is the one that the next start loads.
use logryph.Base.{
  ℕ, ◌≡◌, refl, sym, ap, subst, true, Option, none, some, String, nat_eq, length, arith,
}
use logryph.Base.Assoc.{lookup, lookup-insert}
use logryph.Base.Post.{Post}
use logryph.Base.Result.{Result, ok, err, panic, ok_injective}
use logryph.Base.Exec.{bind_in-eq-ok, with_context_in-eq-ok, with_context_in}
use logryph.Externals.{Externals, Bytes, IsBytes}
use logryph.Crypto.{Signer, get_public_key}
use logryph.Crypto.Hex.{hex_encode, hex_decode-hex_encode}
use logryph.Crypto.Keys.{
  Disk, Write, written, refused, torn, do_write, next_write, write_file, save_private_key,
  load_private_key, from_file, sized, generate_key, or_entropy, new_keys, from_load, new_signer,
  rotate_key, rotated, KeyLaws,
}

do_write-lookup :
    (path s : String) (w : Write) (d t : Disk) {u : Unit {0}}
    → do_write path s w d ≡ (ok u, t)
    → lookup path t.files ≡ some s
unfolding do_write
do_write-lookup path s written d t h =
    subst (λ e. lookup path e.files ≡ some s) (ap (λ o. o.1) h) (lookup-insert path s d.files)
do_write-lookup path s refused d t h = cc
do_write-lookup path s (torn r) d t h = cc

pub write-lookup :
    (path s : String) (d t : Disk) {u : Unit {0}}
    → write_file path s d ≡ (ok u, t)
    → lookup path t.files ≡ some s
unfolding write_file
write-lookup path s d t h =
    let (w, ws) = next_write d.writes in do_write-lookup path s w (record d { writes = ws }) t h

save-lookup :
    (path : String) (key : Bytes) (d t : Disk) {u : Unit {0}}
    → save_private_key path key d ≡ (ok u, t)
    → lookup path t.files ≡ some (hex_encode key)
unfolding save_private_key
save-lookup path key d t h = write-lookup path (hex_encode key) d t h

load-key :
    (path : String) (key : Bytes) (d : Disk)
    → IsBytes key
    → length key ≡ 64
    → lookup path d.files ≡ some (hex_encode key)
    → load_private_key path d ≡ ok key
unfolding load_private_key from_file sized
load-key path key d bytes long found =
    let right_size : nat_eq (length key) 64 ≡ true = ground arith in
    rw (found, hex_decode-hex_encode key bytes, right_size) refl

module _ (x : Externals) (generate : ℕ → Option (Bytes × Bytes)) (laws : KeyLaws x generate) where
  -- The keys of the signer belong together, and are those that the file gives.
  record IsSaved (path : String) (s : Signer) (d : Disk) : Type 0 where
    keys : s.public_key ≡ x.public_of s.private_key
    loads : load_private_key path d ≡ ok s.private_key

  generated-some :
      (d t : Disk) {p k : Bytes}
      → generate_key x generate d ≡ (ok (p, k), t)
      → generate d.generated ≡ some (p, k)
  unfolding generate_key
  generated-some d t {p} {k} h = by_cases (generate d.generated) (ap (λ o. o.0) h)
    where
      by_cases : (o : Option (Bytes × Bytes)) → or_entropy o ≡ ok (p, k) → o ≡ some (p, k)
      by_cases none e = cc
      by_cases (some q) e = ap some (ok_injective e)

  new_keys-IsSaved :
      (g c path : String) (d t : Disk) {s : Signer}
      → new_keys x generate g c path d ≡ (ok s, t)
      → IsSaved path s t
  unfolding new_keys
  new_keys-IsSaved g c path d t h =
      let (keys, u, p1, q1) = bind_in-eq-ok (with_context_in g (generate_key x generate)) _ d h in
      let (v, w, p2, q2) =
        bind_in-eq-ok (with_context_in c (save_private_key path keys.1)) _ u q1 in
      let made = generated-some d u (with_context_in-eq-ok g (generate_key x generate) d p1) in
      let saved =
        save-lookup path keys.1 u w (with_context_in-eq-ok c (save_private_key path keys.1) u p2) in
      subst (λ r. IsSaved path r t) (ok_injective (ap (λ o. o.0) q2))
        (subst (IsSaved path (record { private_key = keys.1; public_key = keys.0 }))
          (ap (λ o. o.1) q2)
          (record {
            keys = laws.key_public d.generated made;
            loads =
                load-key path keys.1 w (laws.key_bytes d.generated made)
                  (laws.key_length d.generated made) saved;
          }))

  new_signer-IsSaved :
      (path : String) (d t : Disk) {s : Signer}
      → new_signer x generate path d ≡ (ok s, t)
      → IsSaved path s t
  unfolding new_signer from_load
  new_signer-IsSaved path d t {s} h = by_load (load_private_key path d) refl h
    where
      by_load :
          (r : Result Bytes)
          → load_private_key path d ≡ r
          → from_load x generate r path d ≡ (ok s, t)
          → IsSaved path s t
      by_load (ok key) e k =
          subst (λ r. IsSaved path r t) (ok_injective (ap (λ o. o.0) k))
            (subst (IsSaved path (record { private_key = key; public_key = x.public_of key }))
              (ap (λ o. o.1) k) (record { keys = refl; loads = e }))
      by_load (err why) e k = new_keys-IsSaved _ _ path d t k
      by_load (panic why) e k = cc

  again :
      (path : String) (s : Signer) (d : Disk)
      → IsSaved path s d
      → new_signer x generate path d ≡ (ok s, d)
  unfolding new_signer from_load
  again path s d h = rw h.loads (same h.keys)
    where
      same :
          s.public_key ≡ x.public_of s.private_key
          → ◌≡◌ {A = Result Signer × Disk}
              (
                ok (record { private_key = s.private_key; public_key = x.public_of s.private_key }),
                d,
              )
              (ok s, d)
      same k = λ i. (ok (record { private_key = s.private_key; public_key = sym k i }), d)

  -- A signer that `NewSigner` returns, from a file or with a new key, has keys that belong
  -- together, and the next start on the files that it left returns the same signer and writes
  -- nothing. Generated keys are 64 bytes, with their public key.
  pub new_signer-new_signer :
      (path : String) (d t : Disk) {s : Signer}
      → new_signer x generate path d ≡ (ok s, t)
      → (new_signer x generate path t ≡ (ok s, t)) × (s.public_key ≡ x.public_of s.private_key)
  new_signer-new_signer path d t {s} h =
      let saved = new_signer-IsSaved path d t h in (again path s t saved, saved.keys)

  -- `RotateKey` returns the old and the new public key, and then the next start loads the
  -- rotated signer; where it fails, because no key is generated or the file is not written, the
  -- signer keeps its keys. Generated keys are 64 bytes, with their public key.
  pub rotate_key-new_signer :
      (path : String) (s : Signer) (d : Disk)
      → Post
          (λ keys t.
            (keys ≡ (get_public_key s, get_public_key t.0))
            × (new_signer x generate path t.1 ≡ (ok (t.0), t.1)))
          (λ t. t.0 ≡ s)
          (rotate_key x generate path (s, d))
  unfolding rotate_key rotated
  rotate_key-new_signer path s d = by_result (new_keys x generate _ _ path d) refl
    where
      by_result :
          (o : Result Signer × Disk)
          → new_keys x generate "generating new keypair" "saving rotated key" path d ≡ o
          → Post
              (λ keys t.
                (keys ≡ (get_public_key s, get_public_key t.0))
                × (new_signer x generate path t.1 ≡ (ok (t.0), t.1)))
              (λ t. t.0 ≡ s)
              (rotated x generate s o)
      by_result (ok r, t) e = (refl, again path r t (new_keys-IsSaved _ _ path d t e))
      by_result (err why, t) e = refl
      by_result (panic why, t) e = refl
