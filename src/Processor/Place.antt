-- ===== src/Processor/Place.antt =====
-- internal/ledger/processor.go: where `assignSequenceAndPrevHash` places an event, and what
-- `hashAndSignEvent` makes of it.
use logryph.Base.{
  ℕ, ◌≡◌, ◌≢◌, refl, sym, ap, ◌∙◌, subst, Bool, true, false, Option, none, some, List, [], ◌∷◌,
  String, is_set, nat_eq, length, last?, arith,
}
use logryph.Base.Result
use logryph.Base.Result.{
  Result, ok, err, panic, bind-eq-ok, with_context-eq-ok, ok_injective, with_context,
}
use logryph.Base.Exec.{with_context_in, lift}
use logryph.Assert.{check}
use logryph.Base.Post.{Post, Ends, Post-bind, Ends-with_context, Ends-lift, Ends-weaken}
use logryph.Event.{Event}
use logryph.Externals.{Externals, CryptoLaws}
use logryph.Crypto.{Signer, calculate_event_hash, sign_hash}
use logryph.Crypto.Laws.{is_set-hash, verify_signature-sign_hash}
use logryph.Repository.{RunStats, EventRepository}
use logryph.Repository.Laws.{IsSequential, SameView, IsLedger, IsLast}
use logryph.Audit.Chain.{IsAuthentic, IsChain, Follows}
use logryph.Processor.{
  EventProcessor, payload, prev_hash_for, signed_by, assign_in_run, get_stats,
  run_stats_or_assertion, in_db,
}

module _ (x : Externals) {S : Type 0} (repo : EventRepository S)
    (view : S → String → List Event) where
  -- The run's events are a chain that the verifier accepts, and are numbered from 0 on.
  pub record IsSound (signer : Signer) (run : String) (s : S) : Type 0 where
    pub chain : IsChain x signer none (view s run)
    pub sequential : IsSequential 0 (view s run)

  -- The processor of a sound run.
  -- `es` are the run's events.
  pub record IsReady (signer : Signer) (run : String) (es : List Event) (p : EventProcessor S)
      : Type 0 where
    pub sound : IsSound signer run p.db
    pub holds : view p.db run ≡ es
    pub own_run : p.run_id ≡ run
    pub own_signer : p.signer ≡ signer

  -- `f` is `e`, placed behind the last event of the run.
  pub record IsPlaced (run : String) (e f : Event) (p : EventProcessor S) : Type 0 where
    pub placed : f ≡ record e { seq_index = f.seq_index; run_id = run; prev_hash = f.prev_hash }
    pub index : f.seq_index ≡ length (view p.db run)
    pub behind : Follows (last? (view p.db run)) f

  module _ (crypto : CryptoLaws x) where
    pub authentic :
        (signer : Signer) (e : Event) (hash sig : String)
        → signer.public_key ≡ x.public_of signer.private_key
        → calculate_event_hash x e.prev_hash (payload x e) ≡ ok hash
        → sign_hash x signer hash ≡ ok sig
        → IsAuthentic x signer (record e { current_hash = hash; signature = sig })
    unfolding payload
    authentic signer e hash sig keys h s =
        let (verified, set) = verify_signature-sign_hash x crypto signer hash keys s in
        record {
          hashed = h;
          signed = verified;
          hash_set = is_set-hash x crypto e.prev_hash (payload x e) h;
          signature_set = set;
        }

    -- A signed event is authentic, and differs from the event only in its hash and signature.
    pub signed_by-IsAuthentic :
        (signer : Signer) (e f : Event)
        → signer.public_key ≡ x.public_of signer.private_key
        → signed_by x repo e signer ≡ ok f
        → IsAuthentic x signer f
          × (f ≡ record e { current_hash = f.current_hash; signature = f.signature })
    unfolding signed_by
    signed_by-IsAuthentic signer e f keys h =
        let (u, p1, q1) = bind-eq-ok (check x.strict (is_set e.prev_hash) _) _ h in
        let (hash, p2, q2) =
          bind-eq-ok (with_context _ (calculate_event_hash x e.prev_hash (payload x e))) _ q1 in
        let (sig, p3, q3) = bind-eq-ok (with_context _ (sign_hash x signer hash)) _ q2 in
        let made : record e { current_hash = hash; signature = sig } ≡ f = ok_injective q3 in
        subst
          (λ g.
            IsAuthentic x signer g
            × (g ≡ record e { current_hash = g.current_hash; signature = g.signature }))
          made
          (
            authentic signer e hash sig keys (with_context-eq-ok _ _ p2)
                (with_context-eq-ok _ _ p3),
            refl,
          )

  -- A call on the storage leaves the rest of the processor.
  abbrev pub SameRest : EventProcessor S → EventProcessor S → Type 0
  SameRest p q = (q.run_id ≡ p.run_id) × (q.signer ≡ p.signer)

  pub Ends-in_db :
      {A : Type 0} (Q : A → S → Type 0) (R : S → Type 0) (p : EventProcessor S) (r : Result A)
      (t : S)
      → Ends Q R r t
      → Ends (λ a q. Q a q.db × SameRest p q) (λ q. R q.db × SameRest p q) r (record p { db = t })
  Ends-in_db Q R p (ok a) t h = (h, (refl, refl))
  Ends-in_db Q R p (err e) t h = (h, (refl, refl))
  Ends-in_db Q R p (panic e) t h = (h, (refl, refl))

  pub IsSound-SameView :
      {signer : Signer} {run : String} {s t : S}
      → SameView x view s t
      → IsSound signer run s
      → IsSound signer run t
  IsSound-SameView {signer} {run} v h = record {
    chain = subst (λ es. IsChain x signer none es) (sym (v run)) h.chain;
    sequential = subst (λ es. IsSequential 0 es) (sym (v run)) h.sequential;
  }

  module _ {limit : ℕ} (laws : IsLedger x view limit repo) (signer : Signer) (run : String)
      (es : List Event) where
    run_stats_or_assertion-Ends :
        (Q : RunStats → S → Type 0) (R : S → Type 0) (r : Result RunStats) (t : S)
        → Ends Q R r t
        → Ends Q R (run_stats_or_assertion x repo r) t
    unfolding run_stats_or_assertion
    run_stats_or_assertion-Ends Q R (ok a) t h = h
    run_stats_or_assertion-Ends Q R (err e) t h = fails x.strict
      where
        fails :
            (strict : Bool)
            → Ends Q R
                (Result.◌>>◌
                  (Result.with_context "getting run stats"
                    (check strict false "failed to get run stats"))
                  (err e))
                t
        fails true = h
        fails false = h
    run_stats_or_assertion-Ends Q R (panic e) t h = h

    get_stats-Post :
        (s : S)
        → Post
            (λ stats t. SameView x view s t × (stats.total_events ≡ length (view s run)))
            (SameView x view s)
            (get_stats x repo run s)
    unfolding get_stats
    get_stats-Post s =
        run_stats_or_assertion-Ends _ _ (repo.get_run_stats run s).0 (repo.get_run_stats run s).1
          (laws.run_stats run s)

    pub IsReady-same :
        {p q : EventProcessor S}
        → IsReady signer run es p
        → SameView x view p.db q.db
        → SameRest p q
        → IsReady signer run es q
    IsReady-same h v (r, s) = record {
      sound = IsSound-SameView v h.sound;
      holds = v run ∙ h.holds;
      own_run = r ∙ h.own_run;
      own_signer = s ∙ h.own_signer;
    }

    -- The previous hash that is chosen, if one is, is that of the last event.
    prev_hash_for-Follows :
        (n : ℕ) (o : Option Event) (r : ℕ × String) (prev : String) (e : Event)
        → ((l : Event) → o ≡ some l → n ≢ 0)
        → IsLast o r
        → prev_hash_for x repo n r.0 r.1 ≡ ok prev
        → Follows o (record e { prev_hash = prev })
    unfolding prev_hash_for
    prev_hash_for-Follows n none r prev e c l h = tt
    prev_hash_for-Follows n (some last) r prev e c l h =
        let chosen = rw (nonzero n (c last refl)) at h in
        let (u, p1, q1) = bind-eq-ok (check x.strict (is_set r.1) _) _ chosen in
        let (v, p2, q2) = bind-eq-ok (check x.strict (nat_eq n _) _) _ q1 in
        sym (ok_injective q2) ∙ ap (λ t. t.1) l
      where
        nonzero : (n : ℕ) → n ≢ 0 → nat_eq n 0 ≡ false
        nonzero n h = ground arith

    last?-length : (es : List Event) (l : Event) → last? es ≡ some l → length es ≢ 0
    last?-length [] l h = cc
    last?-length (e ∷ es) l h = λ z. cc

    -- What is known of the storage when the previous hash is chosen.
    abbrev At : RunStats → ℕ × String → EventProcessor S → Type 0
    At stats last u =
        IsReady signer run es u
        × (stats.total_events ≡ length (view u.db run))
        × IsLast (last? (view u.db run)) last

    pub assign_in_run-IsPlaced :
        (e : Event) (p : EventProcessor S)
        → IsReady signer run es p
        → Post
            (λ f q. IsReady signer run es q × IsPlaced run e f q)
            (IsReady signer run es)
            (assign_in_run x repo e run p)
    unfolding assign_in_run
    assign_in_run-IsPlaced e p h =
        Post-bind
          (λ stats q. IsReady signer run es q × (stats.total_events ≡ length (view q.db run)))
          (IsReady signer run es) _ (in_db (get_stats x repo run)) _ p
          (Ends-weaken _ _ _ _ (get_stats x repo run p.db).0 _
            (λ stats q k. (IsReady-same h k.0.0 k.1, k.0.1 ∙ ap length (sym (k.0.0 run))))
            (λ q k. IsReady-same h k.0 k.1) (Ends-in_db _ _ p _ _ (get_stats-Post p.db)))
          λ stats q hq _.
            Post-bind
              (λ r t.
                IsReady signer run es t
                × (stats.total_events ≡ length (view t.db run))
                × IsLast (last? (view t.db run)) r)
              (IsReady signer run es) _
              (in_db (with_context_in "getting last event" (repo.get_last_event run))) _ q
              (Ends-weaken _ _ _ _ (with_context _ (repo.get_last_event run q.db).0) _
                (λ r t k. (
                  IsReady-same hq.0 k.0.0 k.1,
                  hq.1 ∙ ap length (sym (k.0.0 run)),
                  subst (λ es. IsLast (last? es) r) (sym (k.0.0 run)) k.0.1,
                ))
                (λ t k. IsReady-same hq.0 k.0 k.1)
                (Ends-in_db _ _ q _ _ (
                  Ends-with_context _ _ _ (repo.get_last_event run q.db).0 _
                    (laws.last_event run q.db hq.0.sound.sequential))))
              λ last t ht _.
                let chosen = prev_hash_for x repo stats.total_events last.0 last.1 in
                Post-bind (λ prev u. At stats last u) (IsReady signer run es) _ (lift chosen) _ t
                  (Ends-weaken (λ prev u. At stats last u) _ (At stats last) _ chosen t (λ a u k. k)
                    (λ u k. k.0) (Ends-lift (At stats last) chosen t ht))
                  λ prev u hu found. (
                    hu.0,
                    record {
                      placed = refl;
                      index = hu.1;
                      behind =
                          prev_hash_for-Follows stats.total_events (last? (view u.db run)) last prev
                            (record e { seq_index = stats.total_events; run_id = run })
                            (λ l k z. last?-length (view u.db run) l k (sym hu.1 ∙ z)) hu.2 found;
                    },
                  )
