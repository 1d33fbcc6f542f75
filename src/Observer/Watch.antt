-- ===== src/Observer/Watch.antt =====
-- internal/observer/engine.go: the engine, its watching goroutine and the policy file, as they
-- change in any order.
use logryph.Base.{ℕ, suc, ◌<◌, ◌≡◌, true, Option, none, some, String}
use logryph.Base.Result.{Result}
use logryph.Observer.Engine.{Config, PolicyFile, Watcher, reload, watch_tick, stop}

-- What becomes of the file after time `c`: nothing, it is gone, or it was written later.
pub data Follows (c : ℕ) (file : Option PolicyFile) : ℕ → Option PolicyFile → Type 0 where
  same : Follows c file c file
  gone : Follows c file c none
  written : (f : PolicyFile) → c < f.mod_time → Follows c file f.mod_time (some f)

-- The file at the engine's path, the time of its last writing, and the ticks that are left.
pub record Scene : Type 0 where
  pub file : Option PolicyFile
  pub clock : ℕ
  pub watcher : Watcher
  pub ticks_left : ℕ

module _ (parse_yaml : String → Result Config) where
  pub data Step (s : Scene) : Scene → Type 0 where
    changes :
        {c : ℕ} {g : Option PolicyFile}
        → Follows s.clock s.file c g
        → Step s (record s { file = g; clock = c })
    ticks :
        (n : ℕ) {c : ℕ} {g : Option PolicyFile}
        → s.ticks_left ≡ suc n
        → Follows s.clock s.file c g
        → Step s (record s {
          file = g;
          clock = c;
          watcher = watch_tick parse_yaml s.file g s.watcher;
          ticks_left = n;
        })
    reloads : Step s (record s {
      watcher = record (s.watcher) { engine = (reload parse_yaml s.file s.watcher.engine).1 };
    })
    stops :
        Step s (record s { watcher = record (s.watcher) { engine = (stop s.watcher.engine).1 } })
    ends : s.watcher.engine.stopped ≡ true → Step s (record s { ticks_left = 0 })

  pub data Reach (s : Scene) : Scene → Type 0 where
    here : Reach s s
    there : {t u : Scene} → Reach s t → Step t u → Reach s u
