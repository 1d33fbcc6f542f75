-- ===== src/Audit/Fault.antt =====
-- internal/ledger/audit/verify.go: the first event at which the verification of a run fails.
use logryph.Base.{
  ℕ, ◌≡◌, refl, sym, ap, ◌∙◌, subst, Bool, true, false, Option, none, some, List, [], ◌∷◌, ◌++◌,
  if◌then◌else◌, length, leb,
}
use logryph.Assert.{check}
use logryph.Base.Result.{Error, wrapped, Result, ok, err, panic, ok_injective, bind-eq-ok}
use logryph.Event.{Event}
use logryph.Externals.{Externals}
use logryph.Crypto.{Signer}
use logryph.Audit.{
  verify_event, links, judge, verify_events, verify_all, VerificationResult, result_of,
  max_verify_events, Verdict, passed, failed, chain_tampered,
}
use logryph.Audit.Append.{last_from}
use logryph.Audit.Chain.{IsChain, links_iff, verify_event_iff}

module _ (x : Externals) (signer : Signer) where
  -- Why an event behind `prev` fails: it does not name the hash of its predecessor, or it does and
  -- `VerifyEvent` has an error.
  pub data IsFault (prev : Option Event) (bad : Event) : Error → Type 0 where
    broken_link : links prev bad ≡ false → IsFault prev bad chain_tampered
    not_authentic :
        (e : Error)
        → links prev bad ≡ true
        → verify_event x bad signer ≡ err e
        → IsFault prev bad (wrapped "Event failed verification" e)

  -- The events before the fault are a chain, and the fault is the event of the given index.
  pub record FailsAt (prev : Option Event) (es : List Event) (why : Error) (seq : ℕ) : Type 0 where
    pub before : List Event
    pub bad : Event
    pub after : List Event
    pub splits : es ≡ before ++ bad ∷ after
    pub chain : IsChain x signer prev before
    pub index : bad.seq_index ≡ seq
    pub fault : IsFault (last_from prev before) bad why

  failed-inj :
      {e f : Error} {n m : ℕ}
      → ◌≡◌ {A = Result Verdict} (ok (failed e n)) (ok (failed f m))
      → (e ≡ f) × (n ≡ m)
  failed-inj h = (cc, cc)

  here :
      (prev : Option Event) (e : Event) (es : List Event) {why found : Error} {seq : ℕ}
      → IsFault prev e found
      → ◌≡◌ {A = Result Verdict} (ok (failed found e.seq_index)) (ok (failed why seq))
      → FailsAt prev (e ∷ es) why seq
  here prev e es f h = record {
    before = [];
    bad = e;
    after = es;
    splits = refl;
    chain = tt;
    index = (failed-inj h).1;
    fault = subst (IsFault prev e) (failed-inj h).0 f;
  }

  later :
      (prev : Option Event) (e : Event) (es : List Event) (why : Error) (seq : ℕ)
      → links prev e ≡ true
      → verify_event x e signer ≡ ok tt
      → FailsAt (some e) es why seq
      → FailsAt prev (e ∷ es) why seq
  later prev e es why seq l v h = record {
    before = e ∷ h.before;
    bad = h.bad;
    after = h.after;
    splits = ap (λ l. e ∷ l) h.splits;
    chain = ((links_iff x signer prev e).0 l, (verify_event_iff x signer e).0 v, h.chain);
    index = h.index;
    fault = h.fault;
  }

  step :
      (prev : Option Event) (e : Event) (es : List Event) (why : Error) (seq : ℕ) (b : Bool)
      (v : Result (Unit {0})) (rest : Result Verdict)
      → links prev e ≡ b
      → verify_event x e signer ≡ v
      → (rest ≡ ok (failed why seq) → FailsAt (some e) es why seq)
      → (if b then judge e rest v else ok (failed chain_tampered e.seq_index)) ≡ ok (failed why seq)
      → FailsAt prev (e ∷ es) why seq
  unfolding judge
  step prev e es why seq false v rest l q k h = here prev e es (broken_link l) h
  step prev e es why seq true (ok u) rest l q k h = later prev e es why seq l q (k h)
  step prev e es why seq true (err f) rest l q k h = here prev e es (not_authentic f l q) h
  step prev e es why seq true (panic f) rest l q k h = cc

  verify_events-FailsAt :
      (prev : Option Event) (es : List Event) (why : Error) (seq : ℕ)
      → verify_events x signer prev es ≡ ok (failed why seq)
      → FailsAt prev es why seq
  unfolding verify_events
  verify_events-FailsAt prev [] why seq h = cc
  verify_events-FailsAt prev (e ∷ es) why seq h =
      step prev e es why seq (links prev e) (verify_event x e signer)
        (verify_events x signer (some e) es) refl refl
        (λ k. verify_events-FailsAt (some e) es why seq k) h

  reported :
      (es : List Event) (n : ℕ) (v : Verdict) {r : VerificationResult}
      → verify_events x signer none es ≡ ok v
      → ◌≡◌ {A = Result VerificationResult} (ok (result_of n v)) (ok r)
      → r.valid ≡ false
      → (why : Error) × (r.error_message ≡ some why) × FailsAt none es why r.failed_at_seq
  unfolding result_of
  reported es n passed e h f = absurd (clash (sym f ∙ ap (λ o. o.valid) (sym (ok_injective h))))
    where
      clash : false ≡ true → ⊥
      clash k = cc
  reported es n (failed why seq) e h f = (
    why,
    ap (λ o. o.error_message) (sym (ok_injective h)),
    subst (FailsAt none es why) (ap (λ o. o.failed_at_seq) (ok_injective h))
        (verify_events-FailsAt none es why seq e),
  )

  -- Where `VerifyChain` behind its query returns an invalid result for the events of a run, the
  -- message and the index are those of the first fault: the events before it are a chain, and
  -- it does not name the hash of its predecessor, or it does and `VerifyEvent` has an error.
  pub verify_all-FailsAt :
      (e : Event) (es : List Event) (r : VerificationResult)
      → verify_all x signer (e ∷ es) ≡ ok r
      → r.valid ≡ false
      → (why : Error) × (r.error_message ≡ some why) × FailsAt none (e ∷ es) why r.failed_at_seq
  unfolding verify_all
  verify_all-FailsAt e es r h f =
      let (u, p, q) = bind-eq-ok (check x.strict (leb (length (e ∷ es)) max_verify_events) _) _ h in
      let (v, ev, k) = bind-eq-ok (verify_events x signer none (e ∷ es)) _ q in
      reported (e ∷ es) (length (e ∷ es)) v ev k f
