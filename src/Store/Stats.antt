-- ===== src/Store/Stats.antt =====
-- The statistics of internal/ledger/store/stats.go.
use logryph.Base.{
  ℕ, ◌+◌, Bool, List, [], ◌∷◌, String, ◌==◌, is_set, if◌then◌else◌, length, select, take,
}
use logryph.Base.Exec.{Exec, pure, lift, gets, ◌>>=◌, ◌>>◌}
use logryph.Assert.{check}
use logryph.Repository.{RunStats, GlobalStats}
use logryph.Store.{Db, Row, rows_of, call_driver, check_rows, close_rows}

count_where : (Row → Bool) → List Row → ℕ
count_where p rows = length (select p rows)

-- One more row of a risk level, in a breakdown.
count_risk : String → List (String × ℕ) → List (String × ℕ)
count_risk k [] = (k, 1) ∷ []
count_risk k ((j, n) ∷ m) = if j == k then (j, n + 1) ∷ m else (j, n) ∷ count_risk k m

-- `GROUP BY risk_level` over the rows whose level is set
group_risks : List Row → List (String × ℕ)
unfolding count_risk
group_risks [] = []
group_risks (r ∷ rs) =
    let rest = group_risks rs in if is_set r.risk_level then count_risk r.risk_level rest else rest

abbrev pub max_risk_levels : ℕ
max_risk_levels = 32

-- The statistics of the rows of a run.
unfoldable pub stats_of : String → List Row → RunStats
unfolding count_where group_risks
stats_of run_id rows = record {
  run_id = run_id;
  total_events = length rows;
  call_count = count_where (λ r. r.event_type == "tool_call") rows;
  blocked_count = count_where (λ r. r.event_type == "blocked") rows;
  risk_breakdown = take max_risk_levels (group_risks rows);
}

unfoldable pub get_run_stats : Bool → String → Exec Db RunStats
unfolding call_driver check_rows close_rows stats_of
get_run_stats strict run_id = do
  lift (check strict (is_set run_id) "runID must not be empty")
  call_driver
  call_driver
  rows ← gets (rows_of run_id)
  check_rows strict "risk breakdown rows error"
  close_rows "closing risk breakdown rows"
  pure (stats_of run_id rows)

unfoldable pub get_global_stats : Exec Db GlobalStats
unfolding call_driver count_where
get_global_stats = do
  call_driver
  runs ← gets (λ db. db.runs)
  call_driver
  events ← gets (λ db. db.events)
  call_driver
  pure (record {
    total_runs = length runs;
    total_events = length events;
    critical_count = count_where (λ r. r.risk_level == "critical") events;
  })
