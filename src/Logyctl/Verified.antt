-- ===== src/Logyctl/Verified.antt =====
-- cmd/logyctl/commands/verify.go: what the exit status of `logyctl verify` says of the ledger.
use Prim.Native.String as Str
use mathlib.Core.Logic.Iff
use logryph.Base.{
  ℕ, ◌≤◌, ◌≡◌, ◌≢◌, ◌↔◌, ◌⊎◌, inl, inr, refl, sym, ap, ◌∙◌, subst, Bool, true, false, ◌==◌, Option,
  none, List, [], String, is_set, if◌then◌else◌, ltb, le→leb, eq_iff, length, Bool-cases, arith,
}
use logryph.Base.Result.{message, Result, ok, err, panic, ok_injective, with_context}
use logryph.Base.Exec.{pure, continue}
use logryph.Event.{Event}
use logryph.Externals.{Externals, Bytes}
use logryph.Crypto.{Signer}
use logryph.Crypto.Keys.{Disk, new_signer}
use logryph.Genesis.{Anchor}
use logryph.Repository.{EventRepository}
use logryph.Audit.{VerificationResult, verify_chain, verify_all, max_verify_events}
use logryph.Audit.Chain.{IsChain, verify_all_iff}
use logryph.Audit.Anchors.{
  AnchorVerificationResult, verify_anchors, check_anchors, check_anchors_iff, AllLive,
}
use logryph.Processor.{text_take}
use logryph.Logyctl.{Terminal, slice, asserted, close_deferred}
use logryph.Logyctl.Verify.{
  print_failure, report_anchors, check_live, report_chain, verify_run, verify_opened,
  verify_command,
}

long-set : (s : String) → 8 ≤ Str.len s → is_set s ≡ true
long-set Str.[] h = absurd (omega arith)
long-set (Str.◌∷◌ c s) h = refl

long-named : (s : String) → 8 ≤ Str.len s → (s == "") ≡ false
long-named s h = elim (Bool-cases (s == "")) [
  | inl e ↦ absurd (empty (subst (λ r. is_set r ≡ true) ((eq_iff s "").0 e) (long-set s h)))
  | inr e ↦ e
]
  where
    empty : is_set "" ≡ true → ⊥
    empty k = cc

pub slice-short : (s : String) → 8 ≤ Str.len s → slice 8 s ≡ ok (text_take 8 s)
unfolding slice
slice-short s h = rw (le→leb 8 (Str.len s) h) refl

close_deferred-result {ℓ} :
    {S : Type 0} {A : Type ℓ} (repo : EventRepository S) (o : Result A × Terminal S)
    → (close_deferred repo o).0 ≡ o.0
unfolding close_deferred
close_deferred-result repo (ok a, t) = refl
close_deferred-result repo (err e, t) = refl
close_deferred-result repo (panic e, t) = refl

print_failure-err {ℓ} :
    {S : Type 0} {A : Type ℓ} (r : VerificationResult) (t : Terminal S)
    → (print_failure {A = A} r t).0 ≡ err (message "exit status 1")
unfolding print_failure
print_failure-err r t = elim (Bool-cases (ltb 0 r.failed_at_seq)) [
  | inl e ↦ rw e refl
  | inr e ↦ rw e refl
]

module _ (x : Externals) (generate : ℕ → Option (Bytes × Bytes)) (live : ℕ → Option Anchor)
    (to_uint64 : ℕ → ℕ) {S : Type 0} (repo : EventRepository S) where
  abbrev pub Succeeds : Result (Unit {0}) × Terminal S → Type 0
  Succeeds o = o.0 ≡ ok tt

  report_anchors_iff :
      (r : AnchorVerificationResult) (t : Terminal S)
      → Succeeds (report_anchors x generate live to_uint64 repo (ok r) t) ↔ (r.valid ≡ true)
  unfolding report_anchors
  report_anchors_iff r t = elim (Bool-cases r.valid) [
    | inl e ↦ rw e (λ h. refl, λ h. refl)
    | inr e ↦ rw e (λ h. cc, λ h. cc)
  ]

  module _ (run : String) (es : List Event) (s : S)
      (events : repo.get_all_events run s ≡ (ok es, s)) (few : length es ≤ max_verify_events) where
    check_live_iff :
        (t : Terminal S)
        → t.db ≡ s
        → Succeeds (check_live x generate live to_uint64 repo run t) ↔ AllLive live to_uint64 es
    unfolding check_live verify_anchors
    check_live_iff t own =
        rw (own, events, le→leb (length es) max_verify_events few)
          (Iff.trans (report_anchors_iff (check_anchors live to_uint64 es 0) _)
            (check_anchors_iff live to_uint64 es))

    -- What the report of a chain needs to end well.
    abbrev Passes : Bool → VerificationResult → Type 0
    Passes skip_live r = (r.valid ≡ true) × ((skip_live ≡ true) ⊎ AllLive live to_uint64 es)

    live_part_iff :
        (skip_live : Bool) (t : Terminal S)
        → t.db ≡ s
        → Succeeds
            ((if skip_live then pure tt else check_live x generate live to_uint64 repo run) t)
          ↔ ((skip_live ≡ true) ⊎ AllLive live to_uint64 es)
    live_part_iff true t own = (λ h. inl refl, λ h. refl)
    live_part_iff false t own = (λ h. inr ((check_live_iff t own).0 h), passes)
      where
        passes :
            (false ≡ true) ⊎ AllLive live to_uint64 es
            → Succeeds (check_live x generate live to_uint64 repo run t)
        passes (inl h) = cc
        passes (inr all) = (check_live_iff t own).1 all

    report_chain_iff :
        (skip_live : Bool) (r : VerificationResult) (t : Terminal S)
        → t.db ≡ s
        → Succeeds (report_chain x generate live to_uint64 repo skip_live run r t)
          ↔ Passes skip_live r
    unfolding report_chain
    report_chain_iff skip_live r t own = elim (Bool-cases r.valid) [
      | inl e ↦
          let part = live_part_iff skip_live _ own in rw e (λ h. (refl, part.0 h), λ p. part.1 p.1)
      | inr e ↦ rw e (λ h. absurd (fails h), λ p. absurd (no p.0))
    ]
      where
        no : false ≡ true → ⊥
        no h = cc

        fails : Succeeds (print_failure r t) → ⊥
        fails h = cc (print_failure-err {A = Unit {0}} r t)

    module _ (skip_live : Bool) (signer : Signer) where
      abbrev pub Verified : Type 0
      Verified =
          ((es ≢ []) × IsChain x signer none es) × ((skip_live ≡ true) ⊎ AllLive live to_uint64 es)

      -- The result of `VerifyChain`, with what follows it
      chain_part_iff :
          (r : Result VerificationResult) (t : Terminal S)
          → t.db ≡ s
          → verify_all x signer es ≡ r
          → Succeeds (
              continue
                (with_context "Verification error" r)
                (report_chain x generate live to_uint64 repo skip_live run)
                t)
            ↔ Verified
      chain_part_iff (ok r) t own e = (
        λ h.
            let (valid, rest) = (report_chain_iff skip_live r t own).0 h in
            ((verify_all_iff x signer es few).0 (r, e, valid), rest),
        λ v.
            let (r', e', valid) = (verify_all_iff x signer es few).1 v.0 in
            let same : r' ≡ r = ok_injective (sym e' ∙ e) in
            (report_chain_iff skip_live r t own).1 (sym (ap (λ k. k.valid) same) ∙ valid, v.1),
      )
      chain_part_iff (err why) t own e = (λ h. cc, λ v. absurd (no_result v))
        where
          no_result : Verified → ⊥
          no_result v = let (r', e', valid) = (verify_all_iff x signer es few).1 v.0 in cc
      chain_part_iff (panic why) t own e = (λ h. cc, λ v. absurd (no_result v))
        where
          no_result : Verified → ⊥
          no_result v = let (r', e', valid) = (verify_all_iff x signer es few).1 v.0 in cc

      verify_run_iff :
          (short : String) (t : Terminal S)
          → t.db ≡ s
          → slice 8 run ≡ ok short
          → is_set run ≡ true
          → Succeeds (verify_run x generate live to_uint64 repo skip_live signer run t) ↔ Verified
      unfolding verify_run verify_chain
      verify_run_iff short t own long set =
          rw (long, set, own, events) (chain_part_iff (verify_all x signer es) _ refl refl)

      -- Where the database opens, `NewSigner` gives a signer for `.logryph_key`, the current
      -- run has an identifier of at least 8 characters, and its query gives at most 100000
      -- events each time and leaves the database as it was, `logyctl verify` exits with status
      -- 0 exactly if the run has an event and its events are a chain under that signer, and,
      -- unless the live anchors are skipped, every genesis or anchor event that carries a hash
      -- and a height of the right types agrees with the live anchor of that height.
      pub verify_command_iff :
          (t : Terminal S) (d : Disk)
          → new_signer x generate ".logryph_key" t.disk ≡ (ok signer, d)
          → repo.get_run_id t.db ≡ (ok run, s)
          → 8 ≤ Str.len run
          → Succeeds (verify_command x generate live to_uint64 repo (ok tt) skip_live t) ↔ Verified
      unfolding verify_command verify_opened asserted
      verify_command_iff t d key found long =
          rw
            (
              close_deferred-result repo (verify_opened x generate live to_uint64 repo skip_live t),
              key,
              found,
              long-named run long,
            )
            (verify_run_iff (text_take 8 run) _ refl (slice-short run long) (long-set run long))
