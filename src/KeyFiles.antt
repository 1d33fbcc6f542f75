-- ===== src/KeyFiles.antt =====
-- cmd/logyctl/commands/system.go: backups of the key file. `os.Exit(1)` is an error here, and what
-- is printed before it is the error's text. A stat or a read fails only for a missing file.
pub mod Restore
use Prim.Native.String as Str
use Prim.Native.Char.{Char, code}
use logryph.Base.{
  ℕ, Bool, true, false, not, ◌&&◌, ◌||◌, Option, none, some, List, [], ◌∷◌, String, ◌==◌, is_set,
  if◌then◌else◌, ltb, leb, nat_eq, count_char, select, take,
}
use logryph.Base.Assoc.{lookup, insert, delete}
use logryph.Base.Result.{message, Result, ok, err, panic}
use logryph.Base.Exec.{Exec, pure, fail, lift, gets, ◌>>=◌, ◌>>◌}
use logryph.Processor.{text_take}
use logryph.Crypto.Keys.{Disk, Write, written, refused, torn, next_write, write_error, write_file}

abbrev pub key_path : String
key_path = ".logryph_key"

abbrev pub old_path : String
old_path = ".logryph_key.old"

unfoldable pub read_or : String → Option String → Result String
read_or msg none = err (message msg)
read_or msg (some data_) = ok data_

unfoldable pub unless : Bool → String → Exec Disk (Unit {0})
unless true msg = fail (message msg)
unless false msg = pure tt

-- `BackupKeyCommand`, with the time as it is formatted: the path of the backup.
unfoldable pub backup_key : String → Exec Disk String
unfolding read_or unless
backup_key timestamp = do
  files ← gets (λ d. d.files)
  key ← lift (read_or "No key file found" (lookup key_path files))
  let path = Str.◌++◌ ".logryph_key.backup." timestamp
  unless (ltb 256 (Str.len path)) "Backup path exceeds maximum length"
  write_file path key
  pure path

-- `os.Rename` moves a file, or fails and moves nothing.
unfoldable pub do_rename : String → String → String → Write → Exec Disk (Unit {0})
do_rename from to data_ written d =
    (ok tt, record d { files = insert to data_ (delete from d.files) })
do_rename from to data_ w d = (err write_error, d)

unfoldable pub rename : String → String → String → Exec Disk (Unit {0})
unfolding do_rename next_write
rename from to data_ d =
    let (w, ws) = next_write d.writes in do_rename from to data_ w (record d { writes = ws })

-- The current key, if there is one, is moved.
unfoldable pub preserve_key : Option String → Exec Disk (Unit {0})
unfolding rename
preserve_key none = pure tt
preserve_key (some key) = rename key_path old_path key

-- `RestoreKeyCommand`
unfoldable pub restore_key : String → Exec Disk (Unit {0})
unfolding preserve_key read_or unless
restore_key path = do
  unless (ltb 512 (Str.len path)) "Backup path exceeds maximum length"
  files ← gets (λ d. d.files)
  data_ ← lift (read_or "Backup file not found" (lookup path files))
  preserve_key (lookup key_path files)
  write_file key_path data_

-- `filepath.Ext` of a name: from its last dot on.
unfoldable pub ext : String → String
ext Str.[] = ""
ext (Str.◌∷◌ c s) =
    let rest = ext s in
    if nat_eq (code c) b'.' && nat_eq (count_char b'.' s) 0 then Str.◌∷◌ c s else rest

unfoldable pub is_backup : String → Bool
unfolding ext text_take
is_backup name =
    (ext name == "") && ltb 17 (Str.len name) && (text_take 17 name == ".logryph_key.backup")

-- The names that `ListBackupsCommand` shows of those in the directory
unfoldable pub list_backups : List String → List String
unfolding is_backup
list_backups names = select is_backup (take 1000 names)
