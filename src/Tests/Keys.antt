-- ===== src/Tests/Keys.antt =====
-- Concrete values on which the theorems of the keys and of a new worker apply.
use logryph.Base.{
  ℕ, ◌≡◌, ◌⊎◌, refl, Option, some, [], ◌∷◌, String, length, replicate, subst, sym, ap, ◌∙◌, arith,
}
use logryph.Base.Assoc.{lookup, insert, delete}
use logryph.Base.Post.{Post}
use logryph.Base.Result.{ok, Error}
use logryph.Event.{Event}
use mathlib.Core.Option.{some-injective}
use logryph.Externals.{Bytes, IsBytes}
use logryph.Crypto.{Signer, get_public_key}
use logryph.Crypto.Hex.{hex_encode, hex_decode}
use logryph.Event.{empty_event}
use logryph.Samples.{empty_db}
use logryph.Pool.{EventPool}
use logryph.Ring.{Buffer, new}
use logryph.Worker.New.{new_worker, fresh, IsFresh, new_worker-IsFresh}
use logryph.Crypto.Keys.{
  Disk, new_signer, rotate_key, KeyLaws, write_file, from_load, new_keys, generate_key, or_entropy,
  save_private_key, do_write, next_write, load_private_key, from_file, sized,
}
use logryph.Crypto.Saved.{new_signer-new_signer, rotate_key-new_signer}
use logryph.Samples.{replicate-IsBytes, externals}
use logryph.Api.{handle_rekey, AdminRequest}
use logryph.Api.Rekey.{IsRotated, IsKept, handle_rekey-IsRotated}
use logryph.KeyFiles.{
  key_path, old_path, backup_key, restore_key, read_or, unless, preserve_key, rename, do_rename,
}
use logryph.KeyFiles.Restore.{restore_key-backup_key}

-- The n-th key is 64 bytes, and is its own public key here.
abbrev pub key : Bytes
key = replicate 64 7

abbrev pub generate : ℕ → Option (Bytes × Bytes)
generate n = some (key, key)

pub key-laws : KeyLaws externals generate
key-laws = record {
  key_bytes = λ n e.
      subst IsBytes (ap (λ o. o.1) (some-injective _ _ e)) (replicate-IsBytes 64 7 (omega arith));
  key_length = λ n e. ap length (sym (ap (λ o. o.1) (some-injective _ _ e)));
  key_public =
      λ n e. sym (ap (λ o. o.0) (some-injective _ _ e)) ∙ ap (λ o. o.1) (some-injective _ _ e);
}

abbrev no_files : Disk
no_files = record { files = []; writes = []; generated = 0 }

abbrev pub one_key : Disk
one_key = record { files = (".logryph_key", hex_encode key) ∷ []; writes = []; generated = 1 }

abbrev pub key_signer : Signer
key_signer = record { private_key = key; public_key = key }

made : new_signer externals generate ".logryph_key" no_files ≡ (ok key_signer, one_key)
unfolding new_signer from_load new_keys generate_key or_entropy save_private_key write_file do_write
    next_write load_private_key from_file sized lookup insert hex_encode
made = refl

new_signer-new_signer_example :
    (new_signer externals generate ".logryph_key" one_key ≡ (ok key_signer, one_key))
    × (key_signer.public_key ≡ externals.public_of key_signer.private_key)
new_signer-new_signer_example =
    new_signer-new_signer externals generate key-laws ".logryph_key" no_files one_key made

rotate_key-new_signer_example :
    Post
      (λ keys t.
        (keys ≡ (get_public_key key_signer, get_public_key t.0))
        × (new_signer externals generate ".logryph_key" t.1 ≡ (ok (t.0), t.1)))
      (λ t. t.0 ≡ key_signer)
      (rotate_key externals generate ".logryph_key" (key_signer, one_key))
rotate_key-new_signer_example =
    rotate_key-new_signer externals generate key-laws ".logryph_key" key_signer one_key

abbrev rekey_request : AdminRequest
rekey_request = record { method = "POST"; admin_token = "t" }

abbrev shown : Error → String
shown e = "error"

handle_rekey-IsRotated_example :
    IsRotated externals generate shown key-laws "t" rekey_request key_signer one_key
      (handle_rekey externals generate shown "t" rekey_request (key_signer, one_key))
    ⊎ IsKept externals generate shown key-laws "t" rekey_request key_signer one_key
        (handle_rekey externals generate shown "t" rekey_request (key_signer, one_key))
handle_rekey-IsRotated_example =
    handle_rekey-IsRotated externals generate shown key-laws "t" rekey_request key_signer one_key

abbrev small_disk : Disk
small_disk = record { files = (".logryph_key", "k1") ∷ []; writes = []; generated = 0 }

abbrev backed_disk : Disk
backed_disk = record {
  files = (".logryph_key", "k1") ∷ (".logryph_key.backup.T", "k1") ∷ [];
  writes = [];
  generated = 0;
}

-- The key was rotated in between.
abbrev rotated_disk : Disk
rotated_disk = record {
  files = (".logryph_key", "k2") ∷ (".logryph_key.backup.T", "k1") ∷ [];
  writes = [];
  generated = 1;
}

restore_key-backup_key_example :
    (lookup key_path (restore_key ".logryph_key.backup.T" rotated_disk).1.files ≡ some "k1")
    × ((old : String)
        → lookup key_path rotated_disk.files ≡ some old
        → lookup old_path (restore_key ".logryph_key.backup.T" rotated_disk).1.files ≡ some old)
unfolding lookup insert delete backup_key restore_key read_or unless preserve_key rename do_rename
    write_file do_write next_write
restore_key-backup_key_example =
    restore_key-backup_key "T" "k1" ".logryph_key.backup.T" small_disk backed_disk rotated_disk
      (restore_key ".logryph_key.backup.T" rotated_disk).1 refl refl refl refl

abbrev pub no_events_pool : EventPool
no_events_pool = record { free = []; choices = []; event_hits = 0; event_misses = 0 }

abbrev pub new_ring : Buffer Event
new_ring = record {
  slots = empty_event ∷ empty_event ∷ [];
  capacity = 2;
  head = 0;
  tail = 0;
  count = 0;
}

pub made_worker :
    new_worker externals generate 2 empty_db ".logryph_key" no_events_pool 0 one_key
    ≡ (ok (fresh externals generate empty_db no_events_pool 0 key_signer new_ring), one_key)
unfolding new_worker new new_signer from_load load_private_key from_file sized lookup hex_encode
    hex_decode
made_worker = refl

new_worker-IsFresh_example :
    IsFresh externals generate 2 ".logryph_key"
      (fresh externals generate empty_db no_events_pool 0 key_signer new_ring)
      one_key
new_worker-IsFresh_example =
    new_worker-IsFresh externals generate key-laws 2 empty_db ".logryph_key" no_events_pool 0
      one_key one_key (omega arith) made_worker
