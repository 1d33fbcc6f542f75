-- ===== src/Audit/Stored.antt =====
-- internal/ledger/audit/verify.go: `VerifyChain` of a run in a storage.
use logryph.Base.{
  ℕ, zero, suc, ◌≤◌, ◌≡◌, ◌≢◌, refl, ap, ◌∙◌, sym, true, Option, none, some, List, [], ◌∷◌, String,
  is_set, length, take, arith, le→leb, length-take, min,
}
use logryph.Base.Result.{Result, ok, err, panic, ok_injective}
use logryph.Base.Post.{Ends}
use logryph.Event.{Event}
use logryph.Externals.{Externals}
use logryph.Crypto.{Signer}
use logryph.Repository.{EventRepository}
use logryph.Repository.Laws.{IsSequential, IsLedger, SameView}
use logryph.Audit.{verify_all, verify_chain, result_of, passed, max_verify_events}
use logryph.Audit.Chain.{IsChain, verify_events_complete}

module _ (x : Externals) (signer : Signer) where
  -- The first events of a chain are a chain.
  IsChain-take :
      (n : ℕ) (prev : Option Event) (es : List Event)
      → IsChain x signer prev es
      → IsChain x signer prev (take n es)
  IsChain-take zero prev es c = tt
  IsChain-take (suc n) prev [] c = tt
  IsChain-take (suc n) prev (e ∷ es) c = (c.0, c.1, IsChain-take n (some e) es c.2)

  -- A chain that is not too long passes.
  verify_all-passed :
      (es : List Event)
      → es ≢ []
      → length es ≤ max_verify_events
      → IsChain x signer none es
      → verify_all x signer es ≡ ok (result_of (length es) passed)
  unfolding verify_all
  verify_all-passed [] ne h c = absurd (ne refl)
  verify_all-passed (e ∷ es) ne h c =
      rw
        (
          le→leb (length (e ∷ es)) max_verify_events h,
          verify_events_complete x signer none (e ∷ es) c,
        )
        refl

  module _ {S : Type 0} (repo : EventRepository S) (view : S → String → List Event) (run : String)
      {limit : ℕ} (laws : IsLedger x view limit repo) where
    read :
        (r : Result (List Event)) (t : S) (fs es : List Event) (s : S)
        → Ends (λ gs u. SameView x view s u × (gs ≡ es)) (SameView x view s) r t
        → r ≡ ok fs
        → fs ≡ es
    read (ok gs) t fs es s h e = sym (ok_injective e) ∙ h.1
    read (err k) t fs es s h e = cc
    read (panic k) t fs es s h e = cc

    -- For a run that is set, in a storage that keeps its laws and returns at most 100000
    -- events, if the stored run is sequential, a chain, and not empty where it is read, then
    -- `VerifyChain` whose query succeeds says that it is valid, and counts the events that were
    -- read: all of them, or the first `limit` of a longer run, whose other events it does not
    -- look at.
    pub verify_chain-passed :
        (s : S) (fs : List Event)
        → is_set run ≡ true
        → limit ≤ max_verify_events
        → IsSequential 0 (view s run)
        → IsChain x signer none (view s run)
        → take limit (view s run) ≢ []
        → (repo.get_all_events run s).0 ≡ ok fs
        → (verify_chain x repo.get_all_events run signer s).0
          ≡ ok (result_of (min limit (length (view s run))) passed)
    unfolding verify_chain
    verify_chain-passed s fs set bound seq chain ne h =
        let same : fs ≡ take limit (view s run) = read _ _ fs _ s (laws.all_events run s seq) h in
        rw (set, h, same)
          (verify_all-passed (take limit (view s run)) ne (bounded (length-take limit (view s run)))
              (IsChain-take limit none (view s run) chain)
            ∙ ap (λ n. ok (result_of n passed)) (length-take limit (view s run)))
      where
        bounded : {n : ℕ} → n ≡ min limit (length (view s run)) → n ≤ max_verify_events
        bounded e = omega arith
