-- ===== src/Logyctl.antt =====
-- cmd/logyctl: the command-line tool, beside the ledger's files. A command that returns has exit
-- status 0; `os.Exit(1)` and `log.Fatalf` are errors, and leave the deferred calls out; a panic is
-- one of Go, which runs them. A printed line is its
-- format with the values that are put in, errors left out.
pub mod Verify
pub mod Verified
pub mod Reports
pub mod Reported
use Prim.Native.String as Str
use logryph.Base.{ℕ, Bool, false, List, [], ◌∷◌, ◌++◌, String, if◌then◌else◌, leb}
use logryph.Base.Result
use logryph.Base.Result.{message, wrapped, Result, ok, err, panic}
use logryph.Base.Exec.{Exec}
use logryph.Assert.{check}
use logryph.Json.{Value}
use logryph.Crypto.Keys.{Disk}
use logryph.Processor.{text_take}
use logryph.Repository.{EventRepository}

-- The files, the opened database and what was printed.
pub record Terminal (S : Type 0) : Type 0 where
  pub disk : Disk
  pub db : S
  pub printed : List (String × List Value)

-- `s[:n]`, of a text whose characters have one byte each
unfoldable pub slice : ℕ → String → Result String
slice n s =
    if leb n (Str.len s)
    then ok (text_take n s)
    else panic (message "runtime error: slice bounds out of range")

-- An error that is asserted away before it is handled by `log.Fatalf`.
unfoldable pub asserted {ℓ} : {A : Type ℓ} → Bool → String → Result A → Result A
asserted strict msg (ok a) = ok a
asserted strict msg (err e) = Result.◌>>◌ (check strict false msg) (err (wrapped msg e))
asserted strict msg (panic e) = panic e

module _ {S : Type 0} where
  abbrev pub printf : String → List Value → Exec (Terminal S) (Unit {0})
  printf format args t = (ok tt, record t { printed = t.printed ++ (format, args) ∷ [] })

  abbrev pub on_disk {ℓ} : {A : Type ℓ} → Exec Disk A → Exec (Terminal S) A
  on_disk m t = let (r, d) = m t.disk in (r, record t { disk = d })

  abbrev pub on_db {ℓ} : {A : Type ℓ} → Exec S A → Exec (Terminal S) A
  on_db m t = let (r, s) = m t.db in (r, record t { db = s })

  -- `defer db.Close()`, whose error is only printed
  unfoldable pub close_deferred {ℓ} :
      {A : Type ℓ} → EventRepository S → Result A × Terminal S → Result A × Terminal S
  close_deferred repo (ok a, t) = (ok a, (on_db repo.close t).1)
  close_deferred repo (err e, t) = (err e, t)
  close_deferred repo (panic e, t) = (panic e, (on_db repo.close t).1)
