-- ===== src/Logyctl/Reported.antt =====
-- cmd/logyctl/commands/analytics.go: what `logyctl events` prints.
use Prim.Native.String as Str
use logryph.Base.{
  ℕ, zero, suc, ◌≤◌, ◌≡◌, refl, sym, ap, ◌∙◌, Bool, true, false, ◌==◌, some, List, [], ◌∷◌, ◌++◌,
  String, if◌then◌else◌, le→leb, length, get_elem?, take, take_all, append-nil, append_assoc, arith,
}
use logryph.Base.Result.{Result, ok}
use logryph.Base.Exec.{Exec, pure}
use logryph.Json.{Value, text, int, uint64}
use logryph.Event.{Event}
use logryph.Repository.{EventRepository}
use logryph.Processor.{text_take}
use logryph.Logyctl.{Terminal, printf, close_deferred, asserted}
use logryph.Logyctl.Verified.{slice-short}
use logryph.Logyctl.Reports.{
  print_event, print_at, print_recent, asserted_db, report_events, events_command,
  max_recent_events,
}

-- The identifiers have the 8 characters that are shown.
abbrev pub AllNamed : List Event → Type 0
AllNamed [] = Unit {0}
AllNamed (e ∷ es) = (8 ≤ Str.len e.id) × AllNamed es

abbrev pub Line : Type 0
Line = String × List Value

abbrev pub event_lines : Event → List Line
event_lines e =
    (
      "[%d] %s | %s | %s\n",
      uint64 e.seq_index ∷ text (text_take 8 e.id) ∷ text e.event_type ∷ text e.method ∷ [],
    )
    ∷ (if e.was_blocked then ("    BLOCKED\n", []) ∷ [] else [])

-- The lines of the events, the last event first
abbrev pub lines_backwards : List Event → List Line
lines_backwards [] = []
lines_backwards (e ∷ es) = lines_backwards es ++ event_lines e

abbrev with_lines : {S : Type 0} → Terminal S → List Line → Terminal S
with_lines t ls = record t { printed = t.printed ++ ls }

record Found (es : List Event) (idx : ℕ) : Type 0 where
  pub event : Event
  pub here : get_elem? es idx ≡ some event
  pub named : 8 ≤ Str.len event.id
  pub last :
      lines_backwards (take (suc idx) es) ≡ event_lines event ++ lines_backwards (take idx es)

found : (es : List Event) (idx : ℕ) → AllNamed es → suc idx ≤ length es → Found es idx
found [] idx n h = absurd (omega (arith, h))
found (e ∷ es) zero n h = record {
  event = e;
  here = refl;
  named = n.0;
  last = sym (append-nil (event_lines e));
}
found (e ∷ es) (suc idx) n h =
    let f = found es idx n.1 (omega (arith, h)) in
    record {
      event = f.event;
      here = f.here;
      named = f.named;
      last =
          ap (λ ls. ls ++ event_lines e) f.last
          ∙ append_assoc (event_lines f.event) (lines_backwards (take idx es)) (event_lines e);
    }

module _ {S : Type 0} where
  print_event-lines :
      (e : Event) (t : Terminal S)
      → 8 ≤ Str.len e.id
      → print_event e t ≡ (ok tt, with_lines t (event_lines e))
  unfolding print_event
  print_event-lines e t h = rw (slice-short e.id h) (by_blocked e.was_blocked)
    where
      first : Line
      first = (
        "[%d] %s | %s | %s\n",
        uint64 e.seq_index ∷ text (text_take 8 e.id) ∷ text e.event_type ∷ text e.method ∷ [],
      )

      print_blocked : Bool → Exec (Terminal S) (Unit {0})
      print_blocked b = if b then printf "    BLOCKED\n" [] else pure tt

      by_blocked :
          (b : Bool)
          → print_blocked b (with_lines t (first ∷ []))
            ≡ (ok tt, with_lines t (first ∷ (if b then ("    BLOCKED\n", []) ∷ [] else [])))
      by_blocked true = ap (λ ls. (ok tt, record t { printed = ls })) (append_assoc t.printed _ _)
      by_blocked false = refl

  abbrev returned : Terminal S → Result (Unit {0}) × Terminal S
  returned u = (ok tt, u)

  no_lines : (u : Terminal S) → returned u ≡ returned (with_lines u [])
  no_lines u = ap (λ ls. (ok tt, record u { printed = ls })) (sym (append-nil u.printed))

  print_recent-backwards :
      (rounds idx : ℕ) (es : List Event) (t : Terminal S)
      → AllNamed es
      → idx ≤ rounds
      → idx ≤ length es
      → print_recent rounds idx es t ≡ (ok tt, with_lines t (lines_backwards (take idx es)))
  unfolding print_recent print_at
  print_recent-backwards zero zero es t n r h = no_lines t
  print_recent-backwards zero (suc idx) es t n r h = absurd (omega (arith, r))
  print_recent-backwards (suc rounds) zero es t n r h = no_lines t
  print_recent-backwards (suc rounds) (suc idx) es t n r h =
      let f = found es idx n h in
      rw f.here (
        rw (print_event-lines f.event t f.named) (
          rw
            (print_recent-backwards rounds idx es (with_lines t (event_lines f.event)) n
              (omega (arith, r)) (omega (arith, h)))
            (ap (λ ls. (ok tt, record t { printed = ls }))
              (append_assoc t.printed _ _ ∙ ap (λ ls. t.printed ++ ls) (sym f.last)))))

module _ (strict : Bool) {S : Type 0} (repo : EventRepository S) where
  -- Where the database opens, names a current run and gives at most 10000 recent events of it
  -- for the limit, all with identifiers of at least 8 characters, and its two queries leave it
  -- as it was, `logyctl events` returns, closes the database, and prints its title with the
  -- number of the events and then the lines of each event, the last event first.
  pub events_command-backwards :
      (limit : ℕ) (run : String) (es : List Event) (t : Terminal S)
      → (run == "") ≡ false
      → repo.get_run_id t.db ≡ (ok run, t.db)
      → repo.get_recent_events run limit t.db ≡ (ok es, t.db)
      → length es ≤ max_recent_events
      → AllNamed es
      → events_command strict repo (ok tt) limit t ≡ (
        ok tt,
        record t {
          db = (repo.close t.db).1;
          printed =
              t.printed
              ++ ("Recent Events (showing %d)\n", int (length es) ∷ [])
                ∷ ("===========================\n", [])
                ∷ lines_backwards es;
        },
      )
  unfolding events_command asserted asserted_db report_events close_deferred
  events_command-backwards limit run es t set current recent few named = rw current (
      rw set (
        rw recent (
          rw (le→leb (length es) max_recent_events few) (
            rw (print_recent-backwards max_recent_events (length es) es _ named few (omega arith)) (
              ap (λ ls. (ok tt, record t { db = (repo.close t.db).1; printed = ls }))
                (append_assoc (t.printed ++ title) rule (lines_backwards (take (length es) es))
                  ∙ append_assoc t.printed title (rule ++ lines_backwards (take (length es) es))
                  ∙ ap (λ s. t.printed ++ (title ++ (rule ++ lines_backwards s)))
                      (take_all (length es) es (omega arith))))))))
    where
      title : List Line
      title = ("Recent Events (showing %d)\n", int (length es) ∷ []) ∷ []

      rule : List Line
      rule = ("===========================\n", []) ∷ []
