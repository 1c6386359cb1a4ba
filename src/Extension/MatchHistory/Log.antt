-- ===== src/Extension/MatchHistory/Log.antt =====
-- packages/extension/src/match-history.ts: the tasks of the write chain keep the newest part of a log.
use rogatio.Prelude.{
  ◌≡◌, refl, ap, ◌∙◌, Bool, true, false, ◌&&◌, ◌||◌, Option, none, some, List, [], ◌∷◌, ◌++◌,
  if◌then◌else◌, map, All, inl, inr, Bool-cases,
}
use rogatio.Prelude.Texts.{Text}
use rogatio.Extension.MatchHistory.{
  match_history_cap, MatchHistoryEntry, SessionValue, entries, raw_entry, newest, Answers, Task,
  match, clearing, clear_match_history, sanitize_stored_entry, append_match_history,
  read_match_history, after_write, with_row, record_match_history, run_task, run_tasks,
}
use rogatio.Extension.MatchHistory.Ring.{IsStable, All-append, parse-newest, append-newest}

-- An unbounded log: what a task makes of it when its row is written. A read that throws loses what
-- was there.
abbrev pub log_written :
    Answers → List MatchHistoryEntry → MatchHistoryEntry → List MatchHistoryEntry
log_written answers log row =
    if answers.set_throws
    then log
    else if answers.enabled_after_write || answers.clear_throws
    then (if answers.get_throws then [] else log) ++ row ∷ []
    else []

abbrev pub log_row :
    Answers → List MatchHistoryEntry → Option MatchHistoryEntry → List MatchHistoryEntry
log_row answers log none = log
log_row answers log (some row) =
    if answers.enabled_after_build && answers.enabled_after_read
    then log_written answers log row
    else log

-- The ring that keeps the newest rows of a log.
abbrev pub ring : List MatchHistoryEntry → SessionValue
ring log = entries (map raw_entry (newest match_history_cap log))

empty_ring : entries [] ≡ ring []
unfolding newest
empty_ring = refl

module _ (strip_url : Text → Text) where
  unfoldable pub log_task : Task → List MatchHistoryEntry → List MatchHistoryEntry
  log_task (match answers built) log =
      if answers.enabled_before
      then log_row answers log (sanitize_stored_entry strip_url built)
      else log
  log_task (clearing throws) log = if throws then log else []

  unfoldable pub log_tasks : List Task → List MatchHistoryEntry → List MatchHistoryEntry
  unfolding log_task
  log_tasks [] log = log
  log_tasks (task ∷ tasks) log = log_tasks tasks (log_task task log)

  abbrev pub IsStableResult : Option MatchHistoryEntry → Type 0
  IsStableResult none = Unit
  IsStableResult (some row) = IsStable strip_url row

  -- The row that the task builds, if there is one, is stable.
  abbrev pub BuildsStable : Task → Type 0
  BuildsStable (match answers built) = IsStableResult (sanitize_stored_entry strip_url built)
  BuildsStable (clearing throws) = Unit

  abbrev pub AreStable : List MatchHistoryEntry → Type 0
  AreStable log = All (IsStable strip_url) log

  -- A step of the ring and of its log.
  record IsKept (value : SessionValue) (log : List MatchHistoryEntry) : Type 0 where
    is_ring : value ≡ ring log
    stable : AreStable log

  read_log :
      (throws : Bool) (log : List MatchHistoryEntry)
      → AreStable log
      → read_match_history strip_url throws (ring log)
        ≡ newest match_history_cap (if throws then [] else log)
  unfolding newest
  read_log true log stable = refl
  read_log false log stable = parse-newest strip_url log stable

  read_stable :
      (throws : Bool) (log : List MatchHistoryEntry)
      → AreStable log
      → AreStable (if throws then [] else log)
  read_stable true log stable = tt
  read_stable false log stable = stable

  after_write-IsKept :
      (answers : Answers) (log : List MatchHistoryEntry) (row : MatchHistoryEntry)
      → AreStable log
      → IsStable strip_url row
      → IsKept
          (after_write strip_url answers
            (ring log)
            (read_match_history strip_url answers.get_throws (ring log))
            row)
          (log_written answers log row)
  after_write-IsKept answers log row stable last = elim (Bool-cases answers.set_throws) [
    | inl throws ↦ rw throws record { is_ring = refl; stable = stable }
    | inr written ↦ elim (Bool-cases (answers.enabled_after_write || answers.clear_throws)) [
      | inl kept ↦
          rw (written, kept)
            record {
              is_ring =
                  ap (λ rows. entries (map raw_entry rows))
                    (ap (λ current. append_match_history strip_url current row)
                        (read_log answers.get_throws log stable)
                      ∙ append-newest strip_url (if answers.get_throws then [] else log) row
                          (read_stable answers.get_throws log stable) last);
              stable =
                  All-append strip_url (if answers.get_throws then [] else log) row
                    (read_stable answers.get_throws log stable) last;
            }
      | inr cleared ↦ rw (written, cleared) record { is_ring = empty_ring; stable = tt }
    ]
  ]

  with_row-IsKept :
      (answers : Answers) (log : List MatchHistoryEntry) (built : Option MatchHistoryEntry)
      → AreStable log
      → IsStableResult built
      → IsKept (with_row strip_url answers (ring log) built) (log_row answers log built)
  with_row-IsKept answers log none stable last = record { is_ring = refl; stable = stable }
  with_row-IsKept answers log (some row) stable last =
      elim (Bool-cases (answers.enabled_after_build && answers.enabled_after_read)) [
        | inl enabled ↦ rw enabled (after_write-IsKept answers log row stable last)
        | inr off ↦ rw off record { is_ring = refl; stable = stable }
      ]

  IsKeptIn : Option SessionValue → List MatchHistoryEntry → Type 0
  IsKeptIn none log = ⊥
  IsKeptIn (some value) log = IsKept value log

  run_task-IsKept :
      (task : Task) (log : List MatchHistoryEntry)
      → AreStable log
      → BuildsStable task
      → IsKeptIn (run_task strip_url task (some (ring log))) (log_task task log)
  unfolding run_task record_match_history clear_match_history log_task IsKeptIn
  run_task-IsKept (match answers built) log stable last = elim (Bool-cases answers.enabled_before) [
    | inl enabled ↦
        rw enabled (with_row-IsKept answers log (sanitize_stored_entry strip_url built) stable last)
    | inr off ↦ rw off record { is_ring = refl; stable = stable }
  ]
  run_task-IsKept (clearing true) log stable last = record { is_ring = refl; stable = stable }
  run_task-IsKept (clearing false) log stable last = record { is_ring = empty_ring; stable = tt }

  kept_value :
      (session : Option SessionValue) (log : List MatchHistoryEntry)
      → IsKeptIn session log
      → (session ≡ some (ring log)) × AreStable log
  unfolding IsKeptIn
  kept_value none log kept = absurd kept
  kept_value (some value) log kept = (ap some kept.is_ring, kept.stable)

  pub run_tasks-ring :
      (tasks : List Task) (log : List MatchHistoryEntry)
      → AreStable log
      → All BuildsStable tasks
      → run_tasks strip_url tasks (some (ring log)) ≡ some (ring (log_tasks tasks log))
  unfolding run_tasks log_tasks
  run_tasks-ring [] log stable builds = refl
  run_tasks-ring (task ∷ tasks) log stable builds =
      let kept =
        kept_value (run_task strip_url task (some (ring log))) (log_task task log)
          (run_task-IsKept task log stable (builds.0)) in
      ap (run_tasks strip_url tasks) (kept.0)
      ∙ run_tasks-ring tasks (log_task task log) (kept.1) (builds.1)
