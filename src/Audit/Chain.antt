-- ===== src/Audit/Chain.antt =====
-- What a verified chain is, without the verifier: every event carries the hash of its content and
-- of its predecessor's hash, and a signature of that hash.
use logryph.Base.{
  ℕ, ◌≤◌, ◌≡◌, ◌≢◌, refl, ap, ◌∙◌, subst, ◌↔◌, Bool, true, false, Option, none, some, List, [], ◌∷◌,
  ◌==◌, eq_iff, eq_refl, is_set, if◌then◌else◌, length, leb, le→leb,
}
use logryph.Base.Result.{
  Result, ok, err, panic, guard, with_context, ok_injective, bind-eq-ok, guard-eq-ok,
  with_context-eq-ok,
}
use logryph.Assert.{check, check-eq-ok}
use logryph.Event.{Event}
use logryph.Externals.{Externals}
use logryph.Crypto.{Signer, calculate_event_hash, verify_signature}
use logryph.Audit.{
  payload, verify_event, links, judge, verify_events, result_of, verify_all, max_verify_events,
  Verdict, passed, failed, VerificationResult, chain_tampered, no_events,
}

-- The first event of a chain follows nothing; each later one names its predecessor's hash.
abbrev pub Follows : Option Event → Event → Type 0
Follows none e = Unit
Follows (some p) e = e.prev_hash ≡ p.current_hash

module _ (x : Externals) (signer : Signer) where
  pub record IsAuthentic (e : Event) : Type 0 where
    pub hashed : calculate_event_hash x e.prev_hash (payload x e) ≡ ok e.current_hash
    pub signed : verify_signature x signer e.current_hash e.signature ≡ true
    pub hash_set : is_set e.current_hash ≡ true
    pub signature_set : is_set e.signature ≡ true

  -- `VerifyEvent` returns no error exactly if the event is authentic: its hash is that of its
  -- content and of the previous hash, its signature verifies for that hash, and both are set.
  pub verify_event_iff : (e : Event) → (verify_event x e signer ≡ ok tt) ↔ IsAuthentic e
  unfolding verify_event
  verify_event_iff e = (sound, complete)
    where
      sound : verify_event x e signer ≡ ok tt → IsAuthentic e
      sound p =
          let (u, p1, q1) = bind-eq-ok (check x.strict (is_set e.signature) _) _ p in
          let (v, p2, q2) = bind-eq-ok (check x.strict (is_set e.current_hash) _) _ q1 in
          let (h, p3, q3) =
            bind-eq-ok (with_context _ (calculate_event_hash x e.prev_hash (payload x e))) _ q2 in
          let (w, p4, q4) = bind-eq-ok (guard (h == e.current_hash) _) _ q3 in
          let same : h ≡ e.current_hash = (eq_iff h e.current_hash).0 (guard-eq-ok _ _ p4) in
          record {
            hashed = with_context-eq-ok _ _ p3 ∙ ap ok same;
            signed =
                subst (λ k. verify_signature x signer k e.signature ≡ true) same
                  (guard-eq-ok _ _ q4);
            hash_set = check-eq-ok x.strict _ _ p2;
            signature_set = check-eq-ok x.strict _ _ p1;
          }

      complete : IsAuthentic e → verify_event x e signer ≡ ok tt
      complete a = rw (a.signature_set, a.hash_set, a.hashed, eq_refl, a.signed)

  -- A chain behind `prev`.
  abbrev pub IsChain : Option Event → List Event → Type 0
  IsChain prev [] = Unit
  IsChain prev (e ∷ es) = Follows prev e × IsAuthentic e × IsChain (some e) es

  pub links_iff : (prev : Option Event) (e : Event) → (links prev e ≡ true) ↔ Follows prev e
  unfolding links
  links_iff none e = (λ h. tt, λ h. refl)
  links_iff (some p) e = eq_iff e.prev_hash p.current_hash

  step_passed :
      (b : Bool) (v : Result (Unit {0})) (rest : Result Verdict) (e : Event)
      → (if b then judge e rest v else ok (failed chain_tampered e.seq_index)) ≡ ok passed
      → (b ≡ true) × (v ≡ ok tt) × (rest ≡ ok passed)
  unfolding judge
  step_passed true (ok u) rest e h = (refl, refl, h)
  step_passed true (err f) rest e h = cc
  step_passed true (panic f) rest e h = cc
  step_passed false v rest e h = cc

  verify_events_sound :
      (prev : Option Event) (es : List Event)
      → verify_events x signer prev es ≡ ok passed
      → IsChain prev es
  unfolding verify_events
  verify_events_sound prev [] h = tt
  verify_events_sound prev (e ∷ es) h =
      let (l, v, r) = step_passed (links prev e) (verify_event x e signer) _ e h in
      ((links_iff prev e).0 l, (verify_event_iff e).0 v, verify_events_sound (some e) es r)

  pub verify_events_complete :
      (prev : Option Event) (es : List Event)
      → IsChain prev es
      → verify_events x signer prev es ≡ ok passed
  unfolding verify_events judge
  verify_events_complete prev [] h = refl
  verify_events_complete prev (e ∷ es) h =
      rw ((links_iff prev e).1 h.0, (verify_event_iff e).1 h.1)
        (verify_events_complete (some e) es h.2)

  valid_passed : (n : ℕ) (v : Verdict) → (result_of n v).valid ≡ true → v ≡ passed
  unfolding result_of
  valid_passed n passed h = refl
  valid_passed n (failed e seq) h = cc

  -- Of at most 100000 events, `VerifyChain` behind its query returns a valid result exactly if
  -- there is an event and the events are a chain: each is authentic, and each but the first
  -- names the hash of the one before it.
  pub verify_all_iff :
      (es : List Event)
      → length es ≤ max_verify_events
      → ((r : VerificationResult) × (verify_all x signer es ≡ ok r) × (r.valid ≡ true))
        ↔ ((es ≢ []) × IsChain none es)
  unfolding verify_all
  verify_all_iff [] h = (λ p. absurd (never p), λ p. absurd (p.0 refl))
    where
      never :
          (r : VerificationResult) × (ok (result_of 0 (failed no_events 0)) ≡ ok r)
            × (r.valid ≡ true)
          → ⊥
      never (r, p, v) =
          cc (valid_passed 0 (failed no_events 0) (ap (λ r. r.valid) (ok_injective p) ∙ v))
  verify_all_iff (e ∷ es) h = (sound, complete)
    where
      whole : List Event
      whole = e ∷ es

      sound :
          (r : VerificationResult) × (verify_all x signer whole ≡ ok r) × (r.valid ≡ true)
          → (whole ≢ []) × IsChain none whole
      sound (r, p, v) =
          let (u, p1, q1) =
            bind-eq-ok (check x.strict (leb (length whole) max_verify_events) _) _ p in
          let (verdict, p2, q2) = bind-eq-ok (verify_events x signer none whole) _ q1 in
          let same : verdict ≡ passed =
            valid_passed (length whole) verdict (ap (λ r. r.valid) (ok_injective q2) ∙ v) in
          (λ e. cc, verify_events_sound none whole (p2 ∙ ap ok same))

      complete :
          (whole ≢ []) × IsChain none whole
          → (r : VerificationResult) × (verify_all x signer whole ≡ ok r) × (r.valid ≡ true)
      complete (ne, c) = (
        result_of (length whole) passed,
        rw (le→leb (length whole) max_verify_events h, verify_events_complete none whole c),
        unfold result_of in refl,
      )
