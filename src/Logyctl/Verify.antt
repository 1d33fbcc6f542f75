-- ===== src/Logyctl/Verify.antt =====
-- cmd/logyctl/commands/verify.go: `logyctl verify`.
use logryph.Base.{ℕ, Bool, ◌==◌, Option, [], ◌∷◌, String, if◌then◌else◌, ltb}
use logryph.Base.Result.{message, Result, ok, err, panic}
use logryph.Base.Exec.{Exec, pure, fail, lift, with_context_in, ◌>>=◌, ◌>>◌}
use logryph.Json.{text, int}
use logryph.Externals.{Externals, Bytes}
use logryph.Crypto.{Signer}
use logryph.Crypto.Keys.{new_signer}
use logryph.Genesis.{Anchor}
use logryph.Repository.{EventRepository}
use logryph.Audit.{VerificationResult, verify_chain}
use logryph.Audit.Anchors.{AnchorVerificationResult, verify_anchors}
use logryph.Logyctl.{Terminal, slice, asserted, printf, on_disk, on_db, close_deferred}

-- The number of the event is printed if it is not 0.
unfoldable pub print_failure {ℓ} :
    {S : Type 0} {A : Type ℓ} → VerificationResult → Exec (Terminal S) A
print_failure r = do
  printf "[FAILED] Chain verification failed\n" []
  printf "  Error: %s\n" []
  (if ltb 0 r.failed_at_seq
      then printf "  Failed at sequence: %d\n" (int r.failed_at_seq ∷ [])
      else pure tt)
  fail (message "exit status 1")

module _ (x : Externals) (generate : ℕ → Option (Bytes × Bytes)) (live : ℕ → Option Anchor)
    (to_uint64 : ℕ → ℕ) {S : Type 0} (repo : EventRepository S) where
  open x use {strict}

  -- The result of `VerifyAnchors`; that it could not be had is only a warning.
  unfoldable pub report_anchors : Result AnchorVerificationResult → Exec (Terminal S) (Unit {0})
  report_anchors (ok r) =
      if r.valid
      then printf "[OK] Bitcoin anchors verified against Blockstream API (%d anchors checked)\n"
          (int r.anchors_checked ∷ [])
      else (do printf "[FAILED] Bitcoin anchor mismatch: %s\n" []; fail (message "exit status 1"))
  report_anchors (err e) = printf "[WARN] Anchor verification failed: %v\n" []
  report_anchors (panic e) = lift (panic e)

  unfoldable pub check_live : String → Exec (Terminal S) (Unit {0})
  unfolding report_anchors
  check_live run_id = do
    printf "Verifying external Bitcoin anchors...\n" []
    λ t.
        let (r, u) = on_db (verify_anchors live to_uint64 strict repo.get_all_events run_id) t in
        report_anchors r u

  unfoldable pub report_chain : Bool → String → VerificationResult → Exec (Terminal S) (Unit {0})
  unfolding check_live print_failure
  report_chain skip_live run_id result =
      if result.valid
      then (do
        printf "[OK] Chain is valid (%d events verified)\n" (int result.total_events ∷ [])
        (if skip_live then pure tt else check_live run_id))
      else print_failure result

  unfoldable pub verify_run : Bool → Signer → String → Exec (Terminal S) (Unit {0})
  unfolding report_chain
  verify_run skip_live signer run_id = do
    short ← lift (slice 8 run_id)
    printf "Verifying chain for run: %s\n" (text short ∷ [])
    result ←
        with_context_in "Verification error"
          (on_db (verify_chain x repo.get_all_events run_id signer))
    report_chain skip_live run_id result

  -- Behind the opening of the database
  unfoldable pub verify_opened : Bool → Exec (Terminal S) (Unit {0})
  unfolding verify_run
  verify_opened skip_live = do
    signer ← (λ t.
        let (r, u) = on_disk (new_signer x generate ".logryph_key") t in
        (asserted strict "failed to load signer" r, u))
    run_id ← with_context_in "Failed to get run ID" (on_db repo.get_run_id)
    (if run_id == ""
        then printf "No runs found in database\n" []
        else verify_run skip_live signer run_id)

  -- `VerifyCommand`, where `store.NewDB` returned `opens`.
  unfoldable pub verify_command : Result (Unit {0}) → Bool → Exec (Terminal S) (Unit {0})
  unfolding verify_opened
  verify_command opens skip_live = do
    lift (asserted strict "failed to open database" opens)
    λ t. close_deferred repo (verify_opened skip_live t)
