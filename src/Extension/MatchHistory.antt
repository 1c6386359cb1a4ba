-- ===== src/Extension/MatchHistory.antt =====
-- packages/extension/src/match-history.ts: the ring of logged matches in the session storage. A
-- stored row is what reading its own properties gives; texts are UTF-16 code units; the stripping
-- of a URL of its credentials and fragment is a parameter. The answers of the browser's calls to a
-- task of the write chain are a record: what the toggle reads, and which storage call throws.
pub mod Kept
pub mod Log
pub mod Ring
use rogatio.Prelude.{
  ℕ, suc, ◌+◌, ◌-◌, Bool, true, false, not, ◌&&◌, ◌||◌, Option, none, some, List, [], ◌∷◌, ◌++◌,
  ◌==◌, leb, if◌then◌else◌, length, drop, any, map,
}
use rogatio.Prelude.Json.{Number}
use rogatio.Prelude.Texts.{Text, codes}
use rogatio.Runtime.Capability.{text_eq}
use rogatio.Extension.LogText.{log_string_max, truncate_log_string}

abbrev pub match_history_cap : ℕ
match_history_cap = 100

abbrev pub match_history_kinds : List Text
match_history_kinds =
    codes "redirect"
    ∷ codes "query"
    ∷ codes "header"
    ∷ codes "request-body"
    ∷ codes "response-body"
    ∷ codes "mock"
    ∷ []

pub record MatchHistoryEntry : Type 0 where
  pub id : Text
  pub at : Number
  pub rule_id : Text
  pub name : Text
  pub kind : Text
  pub method : Text
  pub resource_type : Text
  pub url : Text
  pub initiator : Text
  pub action : Text

-- A stored row: a property that is missing or of another type is `none`.
pub record RawEntry : Type 0 where
  pub id : Option Text
  pub at : Option Number
  pub rule_id : Option Text
  pub name : Option Text
  pub kind : Option Text
  pub method : Option Text
  pub resource_type : Option Text
  pub url : Option Text
  pub initiator : Option Text
  pub action : Option Text

-- The value under the key: an array, or anything else.
pub data SessionValue : Type 0 where
  entries : List RawEntry → SessionValue
  no_entries : SessionValue

unfoldable pub is_history_kind : Text → Bool
unfolding text_eq
is_history_kind kind = any (λ known. text_eq known kind) match_history_kinds

infixr 1 ◌>>=◌
abbrev ◌>>=◌ {ℓ} : {A B : Type ℓ} → Option A → (A → Option B) → Option B
none >>= next = none
some a >>= next = next a

unfoldable pub raw_entry : MatchHistoryEntry → RawEntry
raw_entry entry = record {
  id = some entry.id;
  at = some entry.at;
  rule_id = some entry.rule_id;
  name = some entry.name;
  kind = some entry.kind;
  method = some entry.method;
  resource_type = some entry.resource_type;
  url = some entry.url;
  initiator = some entry.initiator;
  action = some entry.action;
}

-- The last elements of a list: `slice(length - n)` where it is longer.
unfoldable pub newest {ℓ} : {A : Type ℓ} → ℕ → List A → List A
newest n xs = if leb (length xs) n then xs else drop (length xs - n) xs

-- The answers of the browser to a task: what the four reads of the toggle give, and whether the
-- read and the writes of the session storage throw.
pub record Answers : Type 0 where
  pub enabled_before : Bool
  pub enabled_after_build : Bool
  pub enabled_after_read : Bool
  pub enabled_after_write : Bool
  pub get_throws : Bool
  pub set_throws : Bool
  pub clear_throws : Bool

-- A task of the write chain: a match, of which the row is built, or a clearing, which may throw.
pub data Task : Type 0 where
  match : Answers → RawEntry → Task
  clearing : Bool → Task

-- `none`: there is no session storage.
unfoldable pub clear_match_history : Bool → Option SessionValue → Option SessionValue
clear_match_history throws none = none
clear_match_history throws (some value) = if throws then some value else some (entries [])

module _ (strip_url : Text → Text) where
  -- `redactUrl` without the redaction of the query.
  abbrev plain_url : Text → Text
  plain_url url = truncate_log_string (strip_url url)

  abbrev checked_kind : Text → Option Text
  checked_kind kind =
      if is_history_kind kind && leb (length kind) log_string_max then some kind else none

  abbrev nonempty : Text → Option Text
  nonempty text = if length text == 0 then none else some text

  unfoldable pub sanitize_stored_entry : RawEntry → Option MatchHistoryEntry
  unfolding is_history_kind truncate_log_string
  sanitize_stored_entry raw = do
    at ← raw.at
    id ← raw.id
    rule_id ← raw.rule_id
    name ← raw.name
    kind ← raw.kind
    known ← checked_kind kind
    method ← raw.method
    resource_type ← raw.resource_type
    url ← raw.url
    initiator ← raw.initiator
    action ← raw.action
    shown ← nonempty (truncate_log_string id)
    some record {
      id = shown;
      at = at;
      rule_id = truncate_log_string rule_id;
      name = truncate_log_string name;
      kind = known;
      method = truncate_log_string method;
      resource_type = truncate_log_string resource_type;
      url = plain_url url;
      initiator = plain_url initiator;
      action = truncate_log_string action;
    }

  abbrev pub cons_valid : Option MatchHistoryEntry → List MatchHistoryEntry → List MatchHistoryEntry
  cons_valid none rows = rows
  cons_valid (some row) rows = row ∷ rows

  unfoldable pub valid_entries : List RawEntry → List MatchHistoryEntry
  unfolding sanitize_stored_entry
  valid_entries [] = []
  valid_entries (raw ∷ raws) = cons_valid (sanitize_stored_entry raw) (valid_entries raws)

  unfoldable pub parse_match_history_entries : SessionValue → List MatchHistoryEntry
  unfolding valid_entries newest
  parse_match_history_entries no_entries = []
  parse_match_history_entries (entries raws) = newest match_history_cap (valid_entries raws)

  abbrev pub append_valid :
      List MatchHistoryEntry → Option MatchHistoryEntry → List MatchHistoryEntry
  append_valid valid none = valid
  append_valid valid (some row) = newest match_history_cap (valid ++ row ∷ [])

  unfoldable pub append_match_history :
      List MatchHistoryEntry → MatchHistoryEntry → List MatchHistoryEntry
  unfolding parse_match_history_entries raw_entry newest
  append_match_history rows next =
      append_valid (parse_match_history_entries (entries (map raw_entry rows)))
        (sanitize_stored_entry (raw_entry next))

  abbrev pub read_match_history : Bool → SessionValue → List MatchHistoryEntry
  read_match_history throws value = if throws then [] else parse_match_history_entries value

  -- What is stored in the end, when the row is written to what has been read.
  abbrev pub after_write :
      Answers → SessionValue → List MatchHistoryEntry → MatchHistoryEntry → SessionValue
  after_write answers value current row =
      if answers.set_throws
      then value
      else if answers.enabled_after_write || answers.clear_throws
      then entries (map raw_entry (append_match_history current row))
      else entries []

  abbrev pub with_row : Answers → SessionValue → Option MatchHistoryEntry → SessionValue
  with_row answers value none = value
  with_row answers value (some row) =
      if answers.enabled_after_build && answers.enabled_after_read
      then after_write answers value (read_match_history answers.get_throws value) row
      else value

  unfoldable pub record_match_history :
      Answers → RawEntry → Option SessionValue → Option SessionValue
  unfolding append_match_history
  record_match_history answers built none = none
  record_match_history answers built (some value) =
      if answers.enabled_before
      then some (with_row answers value (sanitize_stored_entry built))
      else some value

  unfoldable pub run_task : Task → Option SessionValue → Option SessionValue
  unfolding record_match_history clear_match_history
  run_task (match answers built) session = record_match_history answers built session
  run_task (clearing throws) session = clear_match_history throws session

  -- The tasks of the write chain, one after another.
  unfoldable pub run_tasks : List Task → Option SessionValue → Option SessionValue
  unfolding run_task
  run_tasks [] session = session
  run_tasks (task ∷ tasks) session = run_tasks tasks (run_task task session)
