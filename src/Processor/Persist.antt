-- ===== src/Processor/Persist.antt =====
-- internal/ledger/processor.go: `persistEvent` and the ledger that it acts on.
use logryph.Base.{
  ℕ, suc, ◌+◌, ◌≡◌, refl, sym, ap, ◌∙◌, subst, ◌⊎◌, inl, inr, Option, none, some, List, [], ◌∷◌,
  ◌++◌, String, length, last?, arith,
}
use logryph.Base.Result.{Result, ok, err, panic}
use logryph.Base.Post.{Post, Ends, Post-bind, Ends-weaken}
use logryph.Event.{Event}
use logryph.Externals.{Externals, CryptoLaws}
use logryph.Crypto.{Signer}
use logryph.Repository.{EventRepository}
use logryph.Repository.Laws.{IsSequential, IsStorable, Reads, SameView, Appends, IsLedger}
use logryph.Audit.Chain.{IsAuthentic, IsChain, Follows}
use logryph.Audit.Append.{last_from-none, IsChain-append}
use logryph.Processor.{
  EventProcessor, assign_sequence_and_prev_hash, assign_in_run, hash_and_sign_event, persist_event,
  signed_by, in_db,
}
use logryph.Processor.Place.{
  IsSound, IsReady, IsPlaced, SameRest, Ends-in_db, IsReady-same, signed_by-IsAuthentic,
  assign_in_run-IsPlaced,
}

pub IsSequential-append :
    (n : ℕ) (es : List Event) (e : Event)
    → IsSequential n es
    → e.seq_index ≡ n + length es
    → IsSequential n (es ++ e ∷ [])
IsSequential-append n [] e h k = (omega arith, tt)
IsSequential-append n (f ∷ es) e h k = (h.0, IsSequential-append (suc n) es e h.1 (omega arith))

Follows-same :
    (o : Option Event) (e f : Event) → f.prev_hash ≡ e.prev_hash → Follows o e → Follows o f
Follows-same none e f r h = tt
Follows-same (some p) e f r h = r ∙ h

module _ (x : Externals) where
  -- What the hash needs of storage depends on the time and the two maps alone.
  pub IsStorable-kept :
      (e f : Event)
      → f.timestamp ≡ e.timestamp
      → f.params ≡ e.params
      → f.response ≡ e.response
      → IsStorable x e
      → IsStorable x f
  IsStorable-kept e f t p r h = record {
    time_read = h.time_read;
    time_parses = rw t h.time_parses;
    time_stable = rw t h.time_stable;
    params_read = rw p h.params_read;
    response_read = rw r h.response_read;
  }

  -- An event that is read back with its fields and digest is authentic if the stored one is.
  IsAuthentic-Reads :
      (signer : Signer) (e f : Event)
      → IsStorable x e
      → Reads x e f
      → IsAuthentic x signer e
      → IsAuthentic x signer f
  IsAuthentic-Reads signer e f s r a = record {
    hashed = r.same_digest s ∙ a.hashed ∙ ap ok (sym r.same_hash);
    signed = rw (r.same_hash, r.same_signature) a.signed;
    hash_set = rw r.same_hash a.hash_set;
    signature_set = rw r.same_signature a.signature_set;
  }

  module _ {S : Type 0} (repo : EventRepository S) (view : S → String → List Event)
      (signer : Signer) (run : String) where
    -- One more event in its place keeps a run sound.
    pub IsSound-Appends :
        (e : Event) (s t : S)
        → IsStorable x e
        → e.run_id ≡ run
        → e.seq_index ≡ length (view s run)
        → Follows (last? (view s run)) e
        → IsAuthentic x signer e
        → IsSound x repo view signer run s
        → (a : Appends x view e s t)
        → IsSound x repo view signer run t × (view t run ≡ view s run ++ a.stored ∷ [])
    IsSound-Appends e s t st own index behind auth h a =
        let grown : view t run ≡ view s run ++ a.stored ∷ [] =
          subst (λ r. view t r ≡ view s r ++ a.stored ∷ []) own a.own_run in
        (
          record {
            chain = subst (IsChain x signer none) (sym grown) (
                IsChain-append x signer none (view s run) (a.stored ∷ []) h.chain (
                  subst (λ o. Follows o a.stored) (sym (last_from-none (view s run)))
                      (Follows-same (last? (view s run)) e a.stored a.reads.same_prev behind),
                  IsAuthentic-Reads signer e a.stored st a.reads auth,
                  tt,
                ));
            sequential = subst (IsSequential 0) (sym grown) (
                IsSequential-append 0 (view s run) a.stored h.sequential
                  (a.reads.same_index ∙ index ∙ omega arith));
          },
          grown,
        )

    module _ {limit : ℕ} (laws : IsLedger x view limit repo) (crypto : CryptoLaws x)
        (keys : signer.public_key ≡ x.public_of signer.private_key) (es : List Event) where
      -- The ledger is ready with one more event, which is what is read of `g`.
      pub record HasGrown (g : Event) (q : EventProcessor S) : Type 0 where
        pub stored : Event
        pub reads : Reads x g stored
        pub ready : IsReady x repo view signer run (es ++ stored ∷ []) q

      abbrev Ready : EventProcessor S → Type 0
      Ready = IsReady x repo view signer run es

      -- What a signed event carries to the storage.
      record IsSigned (g : Event) (q : EventProcessor S) : Type 0 where
        own : g.run_id ≡ run
        index : g.seq_index ≡ length (view q.db run)
        behind : Follows (last? (view q.db run)) g
        auth : IsAuthentic x signer g
        storable : IsStorable x g

      signed_by-IsSigned :
          (e f g : Event) (q : EventProcessor S)
          → IsStorable x e
          → IsPlaced x repo view run e f q
          → signed_by x repo f signer ≡ ok g
          → IsSigned g q
      signed_by-IsSigned e f g q st pl s =
          let (auth, same) = signed_by-IsAuthentic x repo view crypto signer f g keys s in
          record {
            own = ap (λ k. k.run_id) (same) ∙ ap (λ k. k.run_id) pl.placed;
            index = ap (λ k. k.seq_index) same ∙ pl.index;
            behind =
                Follows-same (last? (view q.db run)) f g (ap (λ k. k.prev_hash) same) pl.behind;
            auth = auth;
            storable =
                IsStorable-kept e g (ap (λ k. k.timestamp) same ∙ ap (λ k. k.timestamp) pl.placed)
                  (ap (λ k. k.params) same ∙ ap (λ k. k.params) pl.placed)
                  (ap (λ k. k.response) same ∙ ap (λ k. k.response) pl.placed) st;
          }

      grown :
          (g : Event) (p q : EventProcessor S)
          → Ready p
          → IsSigned g p
          → SameRest x repo view p q
          → Appends x view g p.db q.db
          → HasGrown g q
      grown g p q h s rest a =
          let (sound, longer) =
            IsSound-Appends g p.db q.db s.storable s.own s.index s.behind s.auth h.sound a in
          record {
            stored = a.stored;
            reads = a.reads;
            ready = record {
              sound = sound;
              holds = longer ∙ ap (λ l. l ++ a.stored ∷ []) h.holds;
              own_run = rest.0 ∙ h.own_run;
              own_signer = rest.1 ∙ h.own_signer;
            };
          }

      -- What `persistEvent` may leave after a failure: nothing new, or the whole event.
      abbrev pub KeptOrGrown : EventProcessor S → Type 0
      KeptOrGrown q = Ready q ⊎ ((g : Event) × HasGrown g q)

      store-HasGrown :
          (g : Event) (p : EventProcessor S)
          → Ready p
          → IsSigned g p
          → Post (λ _ q. HasGrown g q) KeptOrGrown (in_db (repo.store_event g) p)
      store-HasGrown g p h s =
          Ends-weaken _ _ _ _ (repo.store_event g p.db).0 _ (λ u q k. grown g p q h s k.1 k.0)
            (λ q k. after q k.0 k.1) (Ends-in_db x repo view _ _ p _ _ (laws.store g p.db))
        where
          after :
              (q : EventProcessor S)
              → SameView x view p.db q.db ⊎ Appends x view g p.db q.db
              → SameRest x repo view p q
              → KeptOrGrown q
          after q (inl v) rest = inl (IsReady-same x repo view laws signer run es h v rest)
          after q (inr a) rest = inr (g, grown g p q h s rest a)

      assign-IsPlaced :
          (e : Event) (p : EventProcessor S)
          → Ready p
          → Post
              (λ f q. Ready q × IsPlaced x repo view run e f q)
              Ready
              (assign_sequence_and_prev_hash x repo e p)
      unfolding assign_sequence_and_prev_hash
      assign-IsPlaced e p h =
          subst
            (λ r.
              Post (λ f q. Ready q × IsPlaced x repo view run e f q) Ready
                (assign_in_run x repo e r p))
            (sym h.own_run) (assign_in_run-IsPlaced x repo view laws signer run es e p h)

      sign-IsSigned :
          (e f : Event) (p : EventProcessor S)
          → IsStorable x e
          → Ready p
          → IsPlaced x repo view run e f p
          → Post (λ g q. Ready q × IsSigned g q) Ready (hash_and_sign_event x repo f p)
      unfolding hash_and_sign_event
      sign-IsSigned e f p st h pl = from_result (signed_by x repo f p.signer) refl
        where
          from_result :
              (r : Result Event)
              → signed_by x repo f p.signer ≡ r
              → Ends (λ g q. Ready q × IsSigned g q) Ready r p
          from_result (ok g) k = (
            h,
            signed_by-IsSigned e f g p st pl
                (subst (λ s. signed_by x repo f s ≡ ok g) h.own_signer k),
          )
          from_result (err k) _ = h
          from_result (panic k) _ = h

      -- On a sound run in a storage that keeps its laws, with a signer whose keys belong
      -- together, `persistEvent` of an event that can be read back returns an event that is
      -- stored behind the last one, linked to it, in sequence, hashed and signed, so that the
      -- run stays sound; where it fails, the run is sound too, with its old events or with that
      -- one more.
      pub persist_event-HasGrown :
          (e : Event) (p : EventProcessor S)
          → IsStorable x e
          → Ready p
          → Post HasGrown KeptOrGrown (persist_event x repo e p)
      unfolding persist_event
      persist_event-HasGrown e p st h =
          Post-bind (λ f q. Ready q × IsPlaced x repo view run e f q) KeptOrGrown _
            (assign_sequence_and_prev_hash x repo e) _ p
            (Ends-weaken _ _ _ _ (assign_sequence_and_prev_hash x repo e p).0 _ (λ f q k. k)
              (λ q k. inl k) (assign-IsPlaced e p h))
            λ f q hq _.
              Post-bind (λ g t. Ready t × IsSigned g t) KeptOrGrown _ (hash_and_sign_event x repo f)
                _ q
                (Ends-weaken _ _ _ _ (hash_and_sign_event x repo f q).0 _ (λ g t k. k)
                  (λ t k. inl k) (sign-IsSigned e f q st hq.0 hq.1))
                λ g t ht _.
                  Post-bind (λ _ u. HasGrown g u) KeptOrGrown _ (in_db (repo.store_event g)) _ t
                    (store-HasGrown g t ht.0 ht.1) λ _ u hu _. hu
