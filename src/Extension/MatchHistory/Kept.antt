-- ===== src/Extension/MatchHistory/Kept.antt =====
-- packages/extension/src/match-history.ts: what the ring holds after the last clearing.
use rogatio.Prelude.{
  ℕ, zero, suc, ◌-◌, ◌≤◌, ◌≡◌, ◌≢◌, refl, sym, ap, ◌∙◌, Bool, true, false, not, ◌&&◌, Option, some,
  List, [], ◌∷◌, ◌++◌, leb, if◌then◌else◌, length, drop, take, map, All, inl, inr, arith,
  Bool-cases,
}
use rogatio.Prelude.Slices.{length-drop, append_assoc, append_nil}
use rogatio.Prelude.Texts.{Text}
use rogatio.Extension.MatchHistory.{
  match_history_cap, MatchHistoryEntry, SessionValue, entries, raw_entry, newest, Answers, Task,
  match, clearing, clear_match_history, record_match_history, run_task, run_tasks,
}
use rogatio.Extension.MatchHistory.Ring.{IsStable}
use rogatio.Extension.MatchHistory.Log.{log_task, log_tasks, ring, run_tasks-ring, BuildsStable}

-- A match: the answers of the browser to its task, and its row.
abbrev pub Match : Type 0
Match = Answers × MatchHistoryEntry

abbrev pub task_of : Match → Task
task_of (answers, row) = match answers (raw_entry row)

-- The toggle is on each time before the write, and the write does not throw.
abbrev pub is_recorded : Answers → Bool
is_recorded answers =
    answers.enabled_before
    && ((answers.enabled_after_build && answers.enabled_after_read) && not answers.set_throws)

-- The rows of the matches that are recorded, in their order.
abbrev pub recorded : List Match → List MatchHistoryEntry
recorded [] = []
recorded ((answers, row) ∷ matches) =
    let later = recorded matches in if is_recorded answers then row ∷ later else later

-- Reading the stored rows does not throw, and the toggle is not off after the write.
abbrev pub IsUntroubled : Match → Type 0
IsUntroubled (answers, row) = (answers.get_throws ≡ false) × (answers.enabled_after_write ≡ true)

-- The stored value is the last 100 rows of a list, or all of them where it has no more.
pub record HoldsNewest (rows : List MatchHistoryEntry) (session : Option SessionValue)
    : Type 0 where
  pub older : List MatchHistoryEntry
  pub kept : List MatchHistoryEntry
  pub parts : rows ≡ older ++ kept
  pub bounded : length kept ≤ match_history_cap
  pub full : older ≢ [] → length kept ≡ match_history_cap
  pub stored : session ≡ some (entries (map raw_entry kept))

take-drop {ℓ} : {A : Type ℓ} (n : ℕ) (xs : List A) → xs ≡ take n xs ++ drop n xs
take-drop zero xs = refl
take-drop (suc n) [] = refl
take-drop (suc n) (x ∷ xs) = ap (λ rest. x ∷ rest) (take-drop n xs)

HoldsNewest-ring : (rows : List MatchHistoryEntry) → HoldsNewest rows (some (ring rows))
unfolding newest
HoldsNewest-ring rows = elim (Bool-cases (leb (length rows) match_history_cap)) [
  | inl few ↦ rw few record {
    older = [];
    kept = rows;
    parts = refl;
    bounded = ground (arith, few);
    full = λ some_older. absurd (some_older refl);
    stored = refl;
  }
  | inr many ↦ rw many record {
    older = take (length rows - match_history_cap) rows;
    kept = drop (length rows - match_history_cap) rows;
    parts = take-drop (length rows - match_history_cap) rows;
    bounded = rw (exactly many) (omega arith);
    full = λ _. exactly many;
    stored = refl;
  }
]
  where
    exactly :
        leb (length rows) match_history_cap ≡ false
        → length (drop (length rows - match_history_cap) rows) ≡ match_history_cap
    exactly many = rw (length-drop (length rows - match_history_cap) rows) (ground (arith, many))

module _ (strip_url : Text → Text) where
  log_task-recorded :
      (answers : Answers) (row : MatchHistoryEntry) (log : List MatchHistoryEntry)
      → IsStable strip_url row
      → IsUntroubled (answers, row)
      → log_task strip_url (match answers (raw_entry row)) log
        ≡ log ++ (if is_recorded answers then row ∷ [] else [])
  unfolding log_task
  log_task-recorded answers row log stable untroubled =
      rw (log_task, stable, untroubled.0, untroubled.1)
        (by_toggle answers.enabled_before
          (answers.enabled_after_build && answers.enabled_after_read) answers.set_throws)
    where
      by_toggle :
          (before later throws : Bool)
          → (if before then if later then if throws then log else log ++ row ∷ [] else log else log)
            ≡ log ++ (if before && (later && not throws) then row ∷ [] else [])
      by_toggle true true true = sym (append_nil log)
      by_toggle true true false = refl
      by_toggle true false throws = sym (append_nil log)
      by_toggle false later throws = sym (append_nil log)

  log_tasks-recorded :
      (matches : List Match) (log : List MatchHistoryEntry)
      → All (λ m. IsStable strip_url m.1) matches
      → All IsUntroubled matches
      → log_tasks strip_url (map task_of matches) log ≡ log ++ recorded matches
  unfolding log_tasks
  log_tasks-recorded [] log stable untroubled = sym (append_nil log)
  log_tasks-recorded ((answers, row) ∷ matches) log stable untroubled =
      ap (log_tasks strip_url (map task_of matches))
        (log_task-recorded answers row log (stable.0) (untroubled.0))
      ∙ (log_tasks-recorded matches (log ++ (if is_recorded answers then row ∷ [] else []))
            (stable.1) (untroubled.1)
          ∙ (append_assoc log (if is_recorded answers then row ∷ [] else []) (recorded matches)
              ∙ ap (λ rows. log ++ rows) (joined (is_recorded answers))))
    where
      joined :
          (is : Bool)
          → (if is then row ∷ [] else []) ++ recorded matches
            ≡ (if is then row ∷ recorded matches else recorded matches)
      joined true = refl
      joined false = refl

  run_tasks-session :
      (tasks : List Task) (value : SessionValue)
      → (final : SessionValue) × (run_tasks strip_url tasks (some value) ≡ some final)
  unfolding run_tasks run_task record_match_history clear_match_history
  run_tasks-session [] value = (value, refl)
  run_tasks-session (match answers built ∷ tasks) value = elim (Bool-cases answers.enabled_before) [
    | inl enabled ↦ rw enabled (run_tasks-session tasks _)
    | inr off ↦ rw off (run_tasks-session tasks value)
  ]
  run_tasks-session (clearing true ∷ tasks) value = run_tasks-session tasks value
  run_tasks-session (clearing false ∷ tasks) value = run_tasks-session tasks (entries [])

  run_tasks-append :
      (before after : List Task) (session : Option SessionValue)
      → run_tasks strip_url (before ++ after) session
        ≡ run_tasks strip_url after (run_tasks strip_url before session)
  unfolding run_tasks
  run_tasks-append [] after session = refl
  run_tasks-append (task ∷ before) after session =
      run_tasks-append before after (run_task strip_url task session)

  BuildsStable-task_of :
      (matches : List Match)
      → All (λ m. IsStable strip_url m.1) matches
      → All (BuildsStable strip_url) (map task_of matches)
  BuildsStable-task_of [] stable = tt
  BuildsStable-task_of ((answers, row) ∷ matches) stable =
      (rw (stable.0) (stable.0), BuildsStable-task_of matches (stable.1))

  empty_ring : entries [] ≡ ring []
  unfolding newest
  empty_ring = refl

  from_empty :
      (matches : List Match)
      → All (λ m. IsStable strip_url m.1) matches
      → All IsUntroubled matches
      → run_tasks strip_url (map task_of matches) (some (entries []))
        ≡ some (ring (recorded matches))
  from_empty matches stable untroubled =
      ap (λ value. run_tasks strip_url (map task_of matches) (some value)) empty_ring
      ∙ (run_tasks-ring strip_url (map task_of matches) [] tt (BuildsStable-task_of matches stable)
          ∙ ap (λ rows. some (ring rows)) (log_tasks-recorded matches [] stable untroubled))

  -- Whatever was stored, and whatever matches and clearings came before: after a clearing that does
  -- not throw, and matches whose reads of the stored rows do not throw and that find the toggle on
  -- after their write, the stored rows are the last 100, or all if there are no more, of the rows
  -- of those matches that found the toggle on before their write and whose write did not throw, in
  -- their order. Sanitizing is taken to leave those rows as they are.
  pub run_tasks-HoldsNewest :
      (before : List Task) (value : SessionValue) (matches : List Match)
      → All (λ m. IsStable strip_url m.1) matches
      → All IsUntroubled matches
      → HoldsNewest
          (recorded matches)
          (run_tasks strip_url (before ++ clearing false ∷ map task_of matches) (some value))
  unfolding run_tasks run_task clear_match_history
  run_tasks-HoldsNewest before value matches stable untroubled =
      let earlier = run_tasks-session before value in
      let after = clearing false ∷ map task_of matches in
      let same : run_tasks strip_url (before ++ after) (some value)
          ≡ some (ring (recorded matches)) =
        run_tasks-append before after (some value)
        ∙ (ap (run_tasks strip_url after) (earlier.1) ∙ from_empty matches stable untroubled) in
      rw same (HoldsNewest-ring (recorded matches))
