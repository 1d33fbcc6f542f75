-- ===== src/Program/Serving.antt =====
-- main.go: a program that serves.
use logryph.Base.{
  ℕ, ◌≡◌, ◌⊎◌, inl, inr, ◌==◌, eq_iff, Bool-cases, refl, sym, ap, ◌∙◌, subst, true, false, Option,
  [], String, is_set, ltb, arith,
}
use logryph.Base.Result.{Error, Result, ok, err, panic, ok_injective}
use logryph.Base.Exec.{lift, bind_in-eq-ok}
use logryph.Assert.{check, check-eq-ok}
use logryph.Externals.{Externals, Bytes}
use logryph.Crypto.Keys.{Disk, new_signer, KeyLaws}
use logryph.Genesis.{Anchor}
use logryph.Repository.{EventRepository}
use logryph.Pool.{EventPool}
use logryph.Ring.Bounds.{IsValid}
use logryph.Worker.{Worker, BackpressureMode, backpressure_block, backpressure_drop, start}
use logryph.Worker.New.{IsFresh, new_worker-IsFresh, new_worker}
use logryph.Worker.Started.{Starts, start-Starts}
use logryph.Worker.Account.{taken}
use logryph.Worker.Metrics.{set_backpressure_mode}
use logryph.Observer.Engine.{
  Config, PolicyFile, ObserverEngine, load_config, new_observer_engine, watch,
}
use logryph.Observer.Settled.{new-loaded, new-running, watch-engine}
use logryph.Program.{Flags, Program, mode_of, answer, started, run_worker, main}

-- The flag's name of a mode
abbrev Names : String → BackpressureMode → Type 0
Names s m = ((s ≡ "block") × (m ≡ backpressure_block)) ⊎ ((s ≡ "drop") × (m ≡ backpressure_drop))

mode_of-Names : (s : String) (m : BackpressureMode) → mode_of s ≡ ok m → Names s m
unfolding mode_of
mode_of-Names s m h = elim (Bool-cases (s == "block")) [
  | inl e ↦ inl ((eq_iff s "block").0 e, sym (ok_injective (rw e at h)))
  | inr e ↦ elim (Bool-cases (s == "drop")) [
    | inl d ↦ inr ((eq_iff s "drop").0 d, sym (ok_injective (rw (e, d) at h)))
    | inr d ↦ absurd (no (rw (e, d) at h))
  ]
]
  where
    no : {w : Error} → err w ≡ ok m → ⊥
    no k = cc

module _ (x : Externals) {S : Type 0} (repo : EventRepository S) (took : ℕ → ℕ) where
  started-Starts :
      (anchor : Option Anchor) (w t : Worker S) (d e : Disk)
      → started x repo took anchor w d ≡ (ok t, e)
      → Starts x repo took w t × (d ≡ e)
  unfolding started answer
  started-Starts anchor w t d e h =
      (by_answer (start x repo took anchor w) refl (ap (λ o. o.0) h), ap (λ o. o.1) h)
    where
      by_answer :
          (o : Result (Unit {0}) × Worker S)
          → start x repo took anchor w ≡ o
          → answer o ≡ ok t
          → Starts x repo took w t
      by_answer (ok u, v) p q =
          subst (Starts x repo took w) (ok_injective q) (start-Starts x repo took anchor w v p)
      by_answer (err why, v) p q = cc
      by_answer (panic why, v) p q = cc

  module _ (generate : ℕ → Option (Bytes × Bytes)) (laws : KeyLaws x generate) where
    -- The worker that `main` starts: empty, of 1000 slots, in the mode of the flag, and with a key
    -- file that the next start loads again.
    pub record IsRunning (backpressure : String) (w : Worker S) (d : Disk) : Type 0 where
      pub mode :
          ((backpressure ≡ "block") × (w.backpressure_mode ≡ backpressure_block))
          ⊎ ((backpressure ≡ "drop") × (w.backpressure_mode ≡ backpressure_drop))
      pub size : w.ring_buffer.capacity ≡ 1000
      pub valid : IsValid w.ring_buffer
      pub none_taken : taken w ≡ 0
      pub running : w.started ≡ true
      pub accepts : (w.closing ≡ false) × (w.signal_closed ≡ false)
      pub same_key : new_signer x generate ".logryph_key" d ≡ (ok (w.core.signer), d)

    fresh-IsRunning :
        (backpressure : String) (mode : BackpressureMode) (w t : Worker S) (d : Disk)
        → mode_of backpressure ≡ ok mode
        → IsFresh x generate 1000 ".logryph_key" w d
        → Starts x repo took (set_backpressure_mode mode w) t
        → IsRunning backpressure t d
    fresh-IsRunning backpressure mode w t d chosen fresh st = record {
      mode =
          subst (Names backpressure) (sym (ap (λ k. k.backpressure_mode) (st.0)))
            (mode_of-Names backpressure mode chosen);
      size = ap (λ k. k.ring_buffer.capacity) (st.0) ∙ fresh.size;
      valid = subst IsValid (sym (ap (λ k. k.ring_buffer) (st.0))) fresh.valid;
      none_taken = ap taken (st.0) ∙ fresh.none_taken;
      running = ap (λ k. k.started) (st.0);
      accepts = (ap (λ k. k.closing) (st.0), ap (λ k. k.signal_closed) (st.0) ∙ fresh.open_channel);
      same_key =
          subst (λ s. new_signer x generate ".logryph_key" d ≡ (ok s, d)) (sym (st.1))
            fresh.same_again;
    }

    run_worker-IsRunning :
        (opens : Result S) (pool : EventPool) (ticks : ℕ) (anchor : Option Anchor)
        (backpressure : String) (d e : Disk) {w : Worker S}
        → run_worker x repo took generate opens pool ticks anchor backpressure d ≡ (ok w, e)
        → IsRunning backpressure w e
    unfolding run_worker
    run_worker-IsRunning opens pool ticks anchor backpressure d e {w} h =
        let (db, d1, p1, q1) = bind_in-eq-ok (lift opens) _ d h in
        let (worker, d2, p2, q2) =
          bind_in-eq-ok (new_worker x generate 1000 db ".logryph_key" pool ticks) _ d1 q1 in
        let (mode, d3, p3, q3) = bind_in-eq-ok (lift (mode_of backpressure)) _ d2 q2 in
        let (starts, same) = started-Starts anchor (set_backpressure_mode mode worker) w d3 e q3 in
        let fresh =
          new_worker-IsFresh x generate laws 1000 db ".logryph_key" pool ticks d1 d2 (omega arith)
            p2 in
        subst (IsRunning backpressure w) (ap (λ o. o.1) p3 ∙ same)
          (fresh-IsRunning backpressure mode worker w d2 (ap (λ o. o.0) p3) fresh starts)

    module _ (parse_yaml : String → Result Config) (absolute : String → Result String)
        (files : String → Option PolicyFile) (parse_url : String → Result (Unit {0})) where
      -- A program that serves as its flags say.
      pub record IsServing (flags : Flags) (p : Program S) (d : Disk) : Type 0 where
        pub target_set : is_set flags.target ≡ true
        pub port_set : ltb 0 flags.listen_port ≡ true
        pub runs : IsRunning flags.backpressure p.worker d
        pub policies :
            load_config parse_yaml (files p.watcher.engine.config_path) ≡ ok p.watcher.engine.config
        pub watched : p.watcher.engine.stopped ≡ false

      engine-IsServing :
          (observed : String → Option PolicyFile) (flags : Flags) (engine : ObserverEngine)
          (w : Worker S) (d : Disk)
          → is_set flags.target ≡ true
          → ltb 0 flags.listen_port ≡ true
          → new_observer_engine parse_yaml x.strict absolute files flags.config_path ≡ ok engine
          → IsRunning flags.backpressure w d
          → IsServing flags
              (record {
                watcher = watch (observed engine.config_path) engine;
                worker = w;
                warnings = [];
              })
              d
      engine-IsServing observed flags engine w d target port made runs =
          let own = watch-engine parse_yaml (observed engine.config_path) engine in
          record {
            target_set = target;
            port_set = port;
            runs = runs;
            policies =
                subst (λ g. load_config parse_yaml (files g.config_path) ≡ ok g.config) (sym own)
                  (new-loaded parse_yaml x.strict absolute files flags.config_path made);
            watched =
                ap (λ g. g.stopped) own
                ∙ new-running parse_yaml x.strict absolute files flags.config_path made;
          }

      -- Where `main` comes to start its servers, the target is set, the port is positive, and
      -- the worker runs in the mode that the flag names, for one of the two names of a mode,
      -- with a valid buffer of 1000 slots, no event taken and an open channel; the observer has
      -- the configuration of the file at its path, and is not stopped; and the next start loads
      -- the same key without writing. Generated keys are 64 bytes, with their public key.
      pub main-IsServing :
          (opens : Result S) (observed : String → Option PolicyFile) (pool : EventPool) (ticks : ℕ)
          (anchor : Option Anchor) (flags : Flags) (d e : Disk) {p : Program S}
          → main x repo took generate parse_yaml absolute files parse_url opens observed pool ticks
              anchor flags d
            ≡ (ok p, e)
          → IsServing flags p e
      unfolding main
      main-IsServing opens observed pool ticks anchor flags d e {p} h =
          let target = check x.strict (is_set flags.target) "target must not be empty" in
          let port = check x.strict (ltb 0 flags.listen_port) "listen port must be positive" in
          let (u1, d1, p1, q1) = bind_in-eq-ok (lift target) _ d h in
          let (u2, d2, p2, q2) = bind_in-eq-ok (lift port) _ d1 q1 in
          let (engine, d3, p3, q3) =
            bind_in-eq-ok
              (lift (new_observer_engine parse_yaml x.strict absolute files flags.config_path)) _ d2
              q2 in
          let (worker, d4, p4, q4) =
            bind_in-eq-ok
              (run_worker x repo took generate opens pool ticks anchor flags.backpressure) _ d3
              q3 in
          let (u5, d5, p5, q5) = bind_in-eq-ok (lift (parse_url flags.target)) _ d4 q4 in
          let runs = run_worker-IsRunning opens pool ticks anchor flags.backpressure d3 d4 p4 in
          subst (λ k. IsServing flags k e) (ok_injective (ap (λ o. o.0) q5))
            (engine-IsServing observed flags engine worker e
              (check-eq-ok x.strict (is_set flags.target) _ (ap (λ o. o.0) p1))
              (check-eq-ok x.strict (ltb 0 flags.listen_port) _ (ap (λ o. o.0) p2))
              (ap (λ o. o.0) p3)
              (subst (IsRunning flags.backpressure worker) (ap (λ o. o.1) p5 ∙ ap (λ o. o.1) q5)
                runs))
