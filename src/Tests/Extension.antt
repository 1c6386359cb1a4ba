-- ===== src/Tests/Extension.antt =====
-- The extension's ring of matches: rows that sanitizing leaves as they are.
use rogatio.Prelude.{ℕ, ◌≡◌, refl, true, false, some, List, [], ◌∷◌, ◌++◌, map}
use rogatio.Prelude.Json.{integer, pos}
use rogatio.Prelude.Texts.{Text, codes}
use rogatio.Extension.MatchHistory.{
  MatchHistoryEntry, entries, raw_entry, Answers, Task, match, run_tasks, clearing, no_entries,
  sanitize_stored_entry,
}
use rogatio.Extension.MatchHistory.Kept.{Match, task_of, HoldsNewest, run_tasks-HoldsNewest}

abbrev row : ℕ → MatchHistoryEntry
row n = record {
  id = n ∷ [];
  at = integer (pos n);
  rule_id = codes "r1";
  name = codes "Shop";
  kind = codes "mock";
  method = codes "GET";
  resource_type = codes "script";
  url = codes "https://a.test/";
  initiator = [];
  action = codes "mock 200";
}

abbrev strip_nothing : Text → Text
strip_nothing url = url

abbrev quiet_answers : Answers
quiet_answers = record {
  enabled_before = true;
  enabled_after_build = true;
  enabled_after_read = true;
  enabled_after_write = true;
  get_throws = false;
  set_throws = false;
  clear_throws = false;
}

-- The toggle is turned off while the row is written.
abbrev turned_off : Answers
turned_off = record quiet_answers { enabled_after_write = false }

abbrev tasks : List Task
tasks =
    match quiet_answers (raw_entry (row 65))
    ∷ match turned_off (raw_entry (row 66))
    ∷ match quiet_answers (raw_entry (row 67))
    ∷ match quiet_answers (raw_entry (row 68))
    ∷ []

-- The write of the second one throws.
abbrev matches : List Match
matches =
    (quiet_answers, row 69)
    ∷ (record quiet_answers { set_throws = true }, row 70)
    ∷ (quiet_answers, row 71)
    ∷ []

run_tasks-HoldsNewest_example :
    HoldsNewest
      (row 69 ∷ row 71 ∷ [])
      (run_tasks strip_nothing (tasks ++ clearing false ∷ map task_of matches) (some no_entries))
unfolding sanitize_stored_entry raw_entry
run_tasks-HoldsNewest_example =
    run_tasks-HoldsNewest strip_nothing tasks no_entries matches (refl, (refl, (refl, tt)))
      ((refl, refl), ((refl, refl), ((refl, refl), tt)))

-- Only the rows after the toggle was off are left.
keep_two_rows :
    run_tasks strip_nothing tasks (some (entries []))
    ≡ some (entries (raw_entry (row 67) ∷ raw_entry (row 68) ∷ []))
unfolding run_tasks
keep_two_rows = refl
