-- ===== src/Observer/Settled.antt =====
-- internal/observer/engine.go: the engine that is watched follows the policy file.
use logryph.Base.{
  ℕ, ◌<◌, ◌≤◌, ◌≡◌, ap, ◌⊎◌, inl, inr, refl, sym, ◌∙◌, subst, Bool, true, false, Option, none, some,
  String, is_set, ltb, lt→ltb, Bool-cases, arith,
}
use logryph.Base.Result.{Error, Result, ok, err, panic, ok_injective, bind-eq-ok}
use logryph.Assert.{check}
use logryph.Observer.Engine.{
  Config, ObserverEngine, PolicyFile, Watcher, load_config, reload, use_config, after_reload,
  when_newer, watch_tick, watch, stop, max_watch_ticks, new_observer_engine, or_path,
}
use logryph.Observer.Watch.{
  Follows, same, gone, written, Scene, Step, changes, ticks, reloads, stops, ends, Reach, here,
  there,
}

module _ (parse_yaml : String → Result Config) where
  -- The engine has the policies of the file, or will read it at the next tick.
  IsSynced : Option PolicyFile → ℕ → Config → Type 0
  IsSynced none last_mod config = Unit
  IsSynced (some f) last_mod config =
      (last_mod < f.mod_time) ⊎ (load_config parse_yaml (some f) ≡ ok config)

  abbrev pub IsPast : Option PolicyFile → ℕ → Type 0
  IsPast none c = Unit
  IsPast (some f) c = f.mod_time ≤ c

  -- The engine's policies are those of a file that was there and could be read.
  abbrev pub IsLoaded : ObserverEngine → Type 0
  IsLoaded e = (f : PolicyFile) × (load_config parse_yaml (some f) ≡ ok e.config)

  record IsTracked (file : Option PolicyFile) (c : ℕ) (w : Watcher) : Type 0 where
    seen : w.last_mod ≤ c
    past : IsPast file c
    synced : IsSynced file w.last_mod w.engine.config
    loaded : IsLoaded w.engine

  follow :
      {file g : Option PolicyFile} {c d : ℕ} (w : Watcher)
      → Follows c file d g
      → IsTracked file c w
      → IsTracked g d w
  unfolding IsSynced
  follow w same h = h
  follow w gone h = record { seen = h.seen; past = tt; synced = tt; loaded = h.loaded }
  follow {c = c} w (written f later) h =
      let seen : w.last_mod ≤ c = h.seen in
      record {
        seen = omega arith;
        past = omega arith;
        synced = inl (omega arith);
        loaded = h.loaded;
      }

  -- A configuration that was just read is that of the file.
  load-IsTracked :
      (file g : Option PolicyFile) (c : ℕ) (w : Watcher) (seen : ℕ) {config : Config}
      → seen ≤ c
      → IsPast g c
      → load_config parse_yaml g ≡ ok config
      → IsTracked g c (record { engine = record (w.engine) { config = config }; last_mod = seen })
  unfolding IsSynced load_config
  load-IsTracked file none c w seen le past h = cc
  load-IsTracked file (some g) c w seen le past h = record {
    seen = le;
    past = past;
    synced = inr h;
    loaded = (g, h);
  }

  reload-IsTracked :
      {file : Option PolicyFile} {c : ℕ} (w : Watcher)
      → IsTracked file c w
      → IsTracked file c (record w { engine = (reload parse_yaml file w.engine).1 })
  unfolding reload
  reload-IsTracked {file} {c} w h = by_load (load_config parse_yaml file) refl
    where
      by_load :
          (r : Result Config)
          → load_config parse_yaml file ≡ r
          → IsTracked file c (record w { engine = (use_config parse_yaml r w.engine).1 })
      by_load (ok config) e = load-IsTracked file file c w w.last_mod h.seen h.past e
      by_load (err why) e = h
      by_load (panic why) e = h

  watch_tick-IsTracked :
      (file : Option PolicyFile) {g : Option PolicyFile} {c d : ℕ} (w : Watcher)
      → Follows c file d g
      → IsTracked file c w
      → IsTracked g d (watch_tick parse_yaml file g w)
  unfolding watch_tick when_newer
  watch_tick-IsTracked none w f h = follow w f h
  watch_tick-IsTracked (some file) {g} {c} {d} w f h =
      elim (Bool-cases (ltb w.last_mod file.mod_time)) [
        | inl newer ↦ rw newer (by_load (load_config parse_yaml g) refl)
        | inr older ↦ rw older (follow w f h)
      ]
    where
      after : IsTracked g d w
      after = follow w f h

      grows : {c d : ℕ} {g : Option PolicyFile} → Follows c (some file) d g → c ≤ d
      grows same = omega arith
      grows gone = omega arith
      grows (written k later) = omega arith

      noted : file.mod_time ≤ d
      noted = let past : file.mod_time ≤ c = h.past in let longer = grows f in omega arith

      by_load :
          (r : Result Config)
          → load_config parse_yaml g ≡ r
          → IsTracked g d
              (after_reload parse_yaml file.mod_time w (use_config parse_yaml r w.engine))
      by_load (ok config) e = load-IsTracked (some file) g d w file.mod_time noted after.past e
      by_load (err why) e = after
      by_load (panic why) e = after

  Step-IsTracked :
      {s t : Scene}
      → Step parse_yaml s t
      → IsTracked s.file s.clock s.watcher
      → IsTracked t.file t.clock t.watcher
  unfolding stop
  Step-IsTracked {s} (changes f) h = follow s.watcher f h
  Step-IsTracked {s} (ticks n left f) h = watch_tick-IsTracked s.file s.watcher f h
  Step-IsTracked {s} reloads h = reload-IsTracked s.watcher h
  Step-IsTracked stops h = record {
    seen = h.seen;
    past = h.past;
    synced = h.synced;
    loaded = h.loaded;
  }
  Step-IsTracked (ends stopped) h = h

  Reach-IsTracked :
      {s t : Scene}
      → Reach parse_yaml s t
      → IsTracked s.file s.clock s.watcher
      → IsTracked t.file t.clock t.watcher
  Reach-IsTracked here h = h
  Reach-IsTracked (there r st) h = Step-IsTracked st (Reach-IsTracked r h)

  -- `Watch` of a new engine, whose file has not changed since it was loaded.
  abbrev pub opened : Option PolicyFile → ℕ → ObserverEngine → Scene
  opened file c e = record {
    file = file;
    clock = c;
    watcher = watch file e;
    ticks_left = max_watch_ticks;
  }

  watch-IsTracked :
      (file : Option PolicyFile) (c : ℕ) (e : ObserverEngine)
      → IsPast file c
      → load_config parse_yaml file ≡ ok e.config
      → IsTracked file c (watch file e)
  unfolding watch load_config IsSynced
  watch-IsTracked none c e past h = cc
  watch-IsTracked (some f) c e past h = record {
    seen = past;
    past = past;
    synced = inr h;
    loaded = (f, h);
  }

  pub new-loaded :
      (strict : Bool) (absolute : String → Result String) (files : String → Option PolicyFile)
      (path : String) {e : ObserverEngine}
      → new_observer_engine parse_yaml strict absolute files path ≡ ok e
      → load_config parse_yaml (files e.config_path) ≡ ok e.config
  unfolding new_observer_engine
  new-loaded strict absolute files path {e} h =
      let (u, p1, q1) =
        bind-eq-ok (check strict (is_set path) "config path must not be empty") _ h in
      let real = or_path parse_yaml path (absolute path) in
      let (config, p2, q2) = bind-eq-ok (load_config parse_yaml (files real)) _ q1 in
      subst (λ g. load_config parse_yaml (files g.config_path) ≡ ok g.config) (ok_injective q2) p2

  pub new-running :
      (strict : Bool) (absolute : String → Result String) (files : String → Option PolicyFile)
      (path : String) {e : ObserverEngine}
      → new_observer_engine parse_yaml strict absolute files path ≡ ok e
      → e.stopped ≡ false
  unfolding new_observer_engine
  new-running strict absolute files path {e} h =
      let (u, p1, q1) =
        bind-eq-ok (check strict (is_set path) "config path must not be empty") _ h in
      let real = or_path parse_yaml path (absolute path) in
      let (config, p2, q2) = bind-eq-ok (load_config parse_yaml (files real)) _ q1 in
      sym (ap (λ g. g.stopped) (ok_injective q2))

  -- `Watch` reads the engine only.
  pub watch-engine : (file : Option PolicyFile) (e : ObserverEngine) → (watch file e).engine ≡ e
  unfolding watch
  watch-engine none e = refl
  watch-engine (some f) e = refl

  -- What a tick does while the file stays as it is.
  abbrev pub Settles : Option PolicyFile → Watcher → Type 0
  Settles file w =
      let t = watch_tick parse_yaml file file w in
      ((config : Config) → load_config parse_yaml file ≡ ok config → t.engine.config ≡ config)
      × ((why : Error) → load_config parse_yaml file ≡ err why → t ≡ w)

  IsTracked-Settles :
      (file : Option PolicyFile) (c : ℕ) (w : Watcher) → IsTracked file c w → Settles file w
  unfolding watch_tick when_newer reload use_config after_reload IsSynced
  IsTracked-Settles none c w h = (λ config e. cc, λ why e. refl)
  IsTracked-Settles (some f) c w h = elim (Bool-cases (ltb w.last_mod f.mod_time)) [
    | inl newer ↦ (λ config e. rw (newer, e) refl, λ why e. rw (newer, e) refl)
    | inr older ↦ (λ config e. rw older (unchanged h.synced older e), λ why e. rw older refl)
  ]
    where
      unchanged :
          {config : Config}
          → (w.last_mod < f.mod_time) ⊎ (load_config parse_yaml (some f) ≡ ok w.engine.config)
          → ltb w.last_mod f.mod_time ≡ false
          → load_config parse_yaml (some f) ≡ ok config
          → w.engine.config ≡ config
      unchanged (inl newer) older e = absurd (no (sym (lt→ltb _ _ newer) ∙ older))
        where
          no : true ≡ false → ⊥
          no k = cc
      unchanged (inr synced) older e = ok_injective (sym synced ∙ e)

  -- However the policy file is written, each time with a later time, or removed, and whatever
  -- ticks, reloads and stops follow each other, also with a change between the look at the file
  -- and its reading: from a new engine whose file has not changed when `Watch` first sees it,
  -- the engine always has the configuration of a file that could be read, a tick during which
  -- the file stays as it is gives the engine that file's configuration if it can be read, and
  -- changes nothing if it cannot.
  pub Reach-Settles :
      (strict : Bool) (absolute : String → Result String) (files : String → Option PolicyFile)
      (path : String) (c : ℕ) (e : ObserverEngine) {s : Scene}
      → new_observer_engine parse_yaml strict absolute files path ≡ ok e
      → IsPast (files e.config_path) c
      → Reach parse_yaml (opened (files e.config_path) c e) s
      → IsLoaded s.watcher.engine × Settles s.file s.watcher
  Reach-Settles strict absolute files path c e made past r =
      let start =
        watch-IsTracked (files e.config_path) c e past
          (new-loaded strict absolute files path made) in
      let h = Reach-IsTracked r start in (h.loaded, IsTracked-Settles _ _ _ h)

  -- The first look of the goroutine takes the file for loaded: one that was changed between
  -- `NewObserverEngine` and that look is never read, as long as it is not changed again.
  watch_tick-watch_stale :
      (f : PolicyFile) (e : ObserverEngine)
      → watch_tick parse_yaml (some f) (some f) (watch (some f) e) ≡ watch (some f) e
  unfolding watch_tick when_newer watch
  watch_tick-watch_stale f e =
      let not_newer : ltb f.mod_time f.mod_time ≡ false = ground arith in rw not_newer refl
