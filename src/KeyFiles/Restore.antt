-- ===== src/KeyFiles/Restore.antt =====
-- cmd/logyctl/commands/system.go: what a restored backup gives, and which backups are listed.
use Prim.Native.String as Str
use text.Mathlib.TextLemmas as Text
use logryph.Base.{
  ℕ, zero, suc, ◌≤◌, ◌≡◌, refl, sym, ap, ◌∙◌, subst, Bool, true, false, ◌&&◌, Option, none, some,
  List, [], ◌∷◌, String, ◌==◌, eq_iff, Bool-cases, inl, inr, ltb, select, take, arith,
}
use logryph.Base.Assoc.{lookup, delete, lookup-insert, lookup-insert_other}
use logryph.Base.Result.{ok, ok_injective}
use logryph.Base.Exec.{Exec, bind_in-eq-ok, pure, ◌>>◌}
use logryph.Processor.{text_take}
use logryph.Crypto.Keys.{Disk, Write, written, refused, torn, next_write, do_write, write_file}
use logryph.Crypto.Saved.{write-lookup}
use logryph.KeyFiles.{
  key_path, old_path, read_or, unless, backup_key, preserve_key, restore_key, is_backup,
  list_backups, ext, rename, do_rename,
}

count-text_take : (n : ℕ) (s : String) → Str.count (text_take n s) ≤ n
unfolding text_take
count-text_take zero s = omega arith
count-text_take (suc n) Str.[] = omega arith
count-text_take (suc n) (Str.◌∷◌ c s) =
    omega (arith, count-text_take n s, Text.length-cons c (text_take n s))

three : (a b : Bool) → (a && b && false) ≡ false
three true true = refl
three true false = refl
three false b = refl

never_backup : (name : String) → is_backup name ≡ false
unfolding is_backup
never_backup name = elim (Bool-cases (text_take 17 name == ".logryph_key.backup")) [
  | inl e ↦
      let long : Str.count (text_take 17 name) ≡ 19 =
        ap Str.count ((eq_iff (text_take 17 name) ".logryph_key.backup").0 e) in
      absurd (omega (arith, count-text_take 17 name))
  | inr e ↦ rw e (three (ext name == "") (ltb 17 (Str.len name)))
]

-- `ListBackupsCommand` shows no file, whatever names are in the directory: it compares 17
-- characters with a text of 19.
list_backups-none : (names : List String) → list_backups names ≡ []
unfolding list_backups
list_backups-none names = none_selected (take 1000 names)
  where
    none_selected : (ns : List String) → select is_backup ns ≡ []
    none_selected [] = refl
    none_selected (n ∷ ns) = rw (never_backup n) (none_selected ns)

unless-eq-ok :
    {B : Type 0} (b : Bool) (msg : String) (rest : Exec Disk B) (d t : Disk) {r : B}
    → (unless b msg >> rest) d ≡ (ok r, t)
    → rest d ≡ (ok r, t)
unfolding unless
unless-eq-ok true msg rest d t h = cc
unless-eq-ok false msg rest d t h = h

backed_up :
    (b : Bool) (msg path key : String) (d : Disk) {p : String} {t : Disk}
    → (unless b msg >> (write_file path key >> pure path)) d ≡ (ok p, t)
    → (p ≡ path) × (lookup path t.files ≡ some key)
unfolding unless
backed_up true msg path key d h = cc
backed_up false msg path key d {p} {t} h =
    let (u, v, w, k) = bind_in-eq-ok (write_file path key) (λ _. pure path) d h in
    (
      sym (ok_injective (ap (λ o. o.0) k)),
      subst (λ e. lookup path e.files ≡ some key) (ap (λ o. o.1) k) (write-lookup path key d v w),
    )

backup_key-lookup :
    (timestamp key : String) (d : Disk) {p : String} {t : Disk}
    → lookup key_path d.files ≡ some key
    → backup_key timestamp d ≡ (ok p, t)
    → lookup p t.files ≡ some key
unfolding backup_key read_or
backup_key-lookup timestamp key d {p} {t} has h =
    let path = Str.◌++◌ ".logryph_key.backup." timestamp in
    let (named, saved) = backed_up _ _ path key d (rw has at h) in
    subst (λ q. lookup q t.files ≡ some key) (sym named) saved

write-other :
    (path q s : String) (d t : Disk) {u : Unit {0}}
    → (path == q) ≡ false
    → write_file path s d ≡ (ok u, t)
    → lookup q t.files ≡ lookup q d.files
unfolding write_file do_write
write-other path q s d t n h =
    let (w, ws) = next_write d.writes in by_write w (record d { writes = ws }) h
  where
    by_write :
        (w : Write) (e : Disk) {u : Unit {0}}
        → do_write path s w e ≡ (ok u, t)
        → lookup q t.files ≡ lookup q e.files
    by_write written e h =
        ap (λ f. lookup q f.files) (sym (ap (λ o. o.1) h)) ∙ lookup-insert_other path q s e.files n
    by_write refused e h = cc
    by_write (torn r) e h = cc

rename-lookup :
    (from to s : String) (d t : Disk) {u : Unit {0}}
    → rename from to s d ≡ (ok u, t)
    → lookup to t.files ≡ some s
unfolding rename do_rename
rename-lookup from to s d t h =
    let (w, ws) = next_write d.writes in by_write w (record d { writes = ws }) h
  where
    by_write :
        (w : Write) (e : Disk) {u : Unit {0}}
        → do_rename from to s w e ≡ (ok u, t)
        → lookup to t.files ≡ some s
    by_write written e h =
        ap (λ f. lookup to f.files) (sym (ap (λ o. o.1) h))
        ∙ lookup-insert to s (delete from e.files)
    by_write refused e h = cc
    by_write (torn r) e h = cc

-- The restored key is there, and so is the old one, if there was one.
restored :
    (o : Option String) (key : String) (d t : Disk) {u : Unit {0}}
    → (preserve_key o >> write_file key_path key) d ≡ (ok u, t)
    → (lookup key_path t.files ≡ some key)
      × ((old : String) → o ≡ some old → lookup old_path t.files ≡ some old)
unfolding preserve_key
restored none key d t h = (write-lookup key_path key d t h, λ old e. cc)
restored (some k) key d t h =
    let (u, v, moved, wrote) =
      bind_in-eq-ok (rename key_path old_path k) (λ _. write_file key_path key) d h in
    (
      write-lookup key_path key v t wrote,
      λ old e.
          write-other key_path old_path key v t refl wrote
          ∙ rename-lookup key_path old_path k d v moved
          ∙ e,
    )

-- A key that `BackupKeyCommand` backed up is the key again after `RestoreKeyCommand` of that
-- backup, whatever became of the key file in between, as long as the backup is there, and the
-- key that was replaced, if any, is in the old file.
pub restore_key-backup_key :
    (timestamp key p : String) (d t v u : Disk)
    → lookup key_path d.files ≡ some key
    → backup_key timestamp d ≡ (ok p, t)
    → lookup p v.files ≡ lookup p t.files
    → restore_key p v ≡ (ok tt, u)
    → (lookup key_path u.files ≡ some key)
      × ((old : String) → lookup key_path v.files ≡ some old → lookup old_path u.files ≡ some old)
unfolding restore_key read_or
restore_key-backup_key timestamp key p d t v u has backed kept done =
    let there : lookup p v.files ≡ some key = kept ∙ backup_key-lookup timestamp key d has backed in
    let within = unless-eq-ok (ltb 512 (Str.len p)) _ _ v u done in
    restored (lookup key_path v.files) key v u (rw there at within)
