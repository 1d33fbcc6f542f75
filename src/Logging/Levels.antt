-- ===== src/Logging/Levels.antt =====
-- internal/logging/logger.go: which calls are printed.
use Prim.Native.String as Str
use logryph.Base.{
  ℕ, ◌≤◌, ◌≡◌, refl, sym, ap, ◌∙◌, Bool, true, false, Option, List, [], ◌∷◌, ◌++◌, append-nil,
  append_assoc, String, is_set, if◌then◌else◌, leb, le→leb, Bool-cases, inl, inr, arith,
}
use logryph.Base.Result.{ok}
use logryph.Base.Post.{Post, Ends-weaken}
use logryph.Base.Exec.{Exec, pure, ◌>>◌}
use logryph.Logging.{
  Fields, Entry, Logger, value_of, or_info, or_else, level_value, once, decide, compare_level,
  print_entry, refuse, should_log, line_of, entry, log_with_level, log, debug, info, warn, error,
  critical,
}

pub data Level : Type 0 where
  at_debug at_info at_warn at_error at_critical : Level

pub record Call : Type 0 where
  pub level : Level
  pub message : String
  pub fields : Fields

abbrev pub rank : Level → ℕ
rank at_debug = 0
rank at_info = 1
rank at_warn = 2
rank at_error = 3
rank at_critical = 4

abbrev pub name_of : Level → String
name_of at_debug = "debug"
name_of at_info = "info"
name_of at_warn = "warn"
name_of at_error = "error"
name_of at_critical = "critical"

-- A message that is not empty, nor too long.
pub record IsFit (c : Call) : Type 0 where
  pub not_empty : is_set c.message ≡ true
  pub short : Str.len c.message ≤ 2048

abbrev pub AllFit : List Call → Type 0
AllFit [] = Unit
AllFit (c ∷ cs) = IsFit c × AllFit cs

or_info-set : (env : String) → is_set (or_info env) ≡ true
unfolding or_info
or_info-set Str.[] = refl
or_info-set (Str.◌∷◌ c s) = refl

or_info-short : (env : String) → Str.len env ≤ 16 → Str.len (or_info env) ≤ 16
unfolding or_info
or_info-short Str.[] h = omega arith
or_info-short (Str.◌∷◌ c s) h = h

module _ (strict : Bool) (env now : String) (marshal : Entry → Option String) where
  call_at : Level → String → Fields → Exec Logger (Unit {0})
  call_at at_debug = debug strict env now marshal
  call_at at_info = info strict env now marshal
  call_at at_warn = warn strict env now marshal
  call_at at_error = error strict env now marshal
  call_at at_critical = critical strict env now marshal

  -- Calls of `Debug`, `Info`, `Warn`, `Error` and `Critical`, one after the other
  unfoldable pub run_calls : List Call → Exec Logger (Unit {0})
  unfolding call_at
  run_calls [] = pure tt
  run_calls (c ∷ cs) = call_at c.level c.message c.fields >> run_calls cs

  -- The least level that is printed: that of the environment until one is set.
  abbrev pub threshold : Logger → ℕ
  threshold l = if l.level_once then l.min_level else value_of (or_info env)

  abbrev pub line : Call → String
  line c =
      line_of strict env now marshal
        (marshal (entry strict env now marshal (name_of c.level) c.message c.fields))

  -- The lines of the calls at the level `n` or above
  unfoldable pub lines : ℕ → List Call → List String
  lines n [] = []
  lines n (c ∷ cs) = let rest = lines n cs in if leb n (rank c.level) then line c ∷ rest else rest

  -- The level is set once.
  settled : Logger → Logger
  settled l = record l { level_once = true; min_level = threshold l }

  once-settled :
      (l : Logger)
      → Str.len env ≤ 16
      → once strict env now marshal l.level_once l ≡ (ok tt, settled l)
  unfolding once settled level_value or_else
  once-settled l h = by_once l.level_once refl
    where
      by_once : (b : Bool) → l.level_once ≡ b → once strict env now marshal b l ≡ (ok tt, settled l)
      by_once true e = rw e refl
      by_once false e = rw (e, or_info-set env, le→leb _ 16 (or_info-short env h)) refl

  -- What a call leaves
  logged : String → ℕ → String → Fields → Logger → Logger
  logged level n msg fields l = record (settled l) {
    printed =
        l.printed
        ++ (if leb (threshold l) n
            then line_of strict env now marshal
                (marshal (entry strict env now marshal level msg fields))
              ∷ []
            else []);
  }

  compare_level-settled :
      (level : String) (l : Logger)
      → is_set level ≡ true
      → leb (Str.len level) 16 ≡ true
      → compare_level strict env now marshal level (settled l)
        ≡ (ok (leb (threshold l) (value_of level)), settled l)
  unfolding compare_level level_value or_else settled
  compare_level-settled level l set small = rw (set, small) refl

  log-logged :
      (level msg : String) (fields : Fields) (l : Logger)
      → Str.len env ≤ 16
      → is_set level ≡ true
      → leb (Str.len level) 16 ≡ true
      → is_set msg ≡ true
      → Str.len msg ≤ 2048
      → log strict env now marshal level msg fields l
        ≡ (ok tt, logged level (value_of level) msg fields l)
  unfolding log log_with_level should_log refuse decide logged print_entry settled
  log-logged level msg fields l fits set small msg_set msg_short =
      rw
        (
          set,
          small,
          msg_set,
          le→leb _ 2048 msg_short,
          once-settled l fits,
          compare_level-settled level l set small,
        )
        (by_level (leb (threshold l) (value_of level)))
    where
      by_level :
          (b : Bool)
          → (if b
                then print_entry strict env now marshal
                    (entry strict env now marshal level msg fields)
                else pure tt)
              (settled l)
            ≡ (
              ok tt,
              record (settled l) {
                printed =
                    l.printed
                    ++ (if b
                        then line_of strict env now marshal
                            (marshal (entry strict env now marshal level msg fields))
                          ∷ []
                        else []);
              },
            )
      by_level true = refl
      by_level false =
          ap (λ ps. (ok tt, record (settled l) { printed = ps })) (sym (append-nil l.printed))

  call_at-logged :
      (level : Level) (msg : String) (fields : Fields) (l : Logger)
      → Str.len env ≤ 16
      → is_set msg ≡ true
      → Str.len msg ≤ 2048
      → call_at level msg fields l ≡ (ok tt, logged (name_of level) (rank level) msg fields l)
  unfolding call_at debug info warn error critical value_of
  call_at-logged at_debug msg fields l h p q = log-logged "debug" msg fields l h refl refl p q
  call_at-logged at_info msg fields l h p q = log-logged "info" msg fields l h refl refl p q
  call_at-logged at_warn msg fields l h p q = log-logged "warn" msg fields l h refl refl p q
  call_at-logged at_error msg fields l h p q = log-logged "error" msg fields l h refl refl p q
  call_at-logged at_critical msg fields l h p q = log-logged "critical" msg fields l h refl refl p q

  lines-cons :
      (n : ℕ) (c : Call) (cs : List Call) (ps : List String)
      → (ps ++ (if leb n (rank c.level) then line c ∷ [] else [])) ++ lines n cs
        ≡ ps ++ lines n (c ∷ cs)
  unfolding lines
  lines-cons n c cs ps = elim (Bool-cases (leb n (rank c.level))) [
    | inl e ↦ rw e (append_assoc ps (line c ∷ []) (lines n cs))
    | inr e ↦ rw e (ap (λ qs. qs ++ lines n cs) (append-nil ps))
  ]

  -- Calls of `Debug`, `Info`, `Warn`, `Error` and `Critical` with messages of 1 to 2048
  -- characters, and a level of at most 16 in the environment, return without a panic or an
  -- error in either assertion mode, and print, behind what was printed before, the lines of
  -- those at the least level or above, in their order: the least level is that of the
  -- environment, or that which was set before the first of them.
  pub run_calls-printed :
      (cs : List Call) (l : Logger)
      → Str.len env ≤ 16
      → AllFit cs
      → Post (λ _ t. t.printed ≡ l.printed ++ lines (threshold l) cs) (λ _. ⊥) (run_calls cs l)
  unfolding run_calls logged settled lines
  run_calls-printed [] l h fit = sym (append-nil l.printed)
  run_calls-printed (c ∷ cs) l h (f, fit) =
      rw (call_at-logged c.level c.message c.fields l h f.not_empty f.short) (
        Ends-weaken _ _ _ _ (run_calls cs next).0 (run_calls cs next).1
          (λ u t e. e ∙ lines-cons (threshold l) c cs l.printed) (λ t k. k)
          (run_calls-printed cs next h fit))
    where
      next : Logger
      next = logged (name_of c.level) (rank c.level) c.message c.fields l
