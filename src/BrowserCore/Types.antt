-- ===== src/BrowserCore/Types.antt =====
-- packages/browser-core/src/types.ts and diagnostics.ts. Timestamps and revisions are natural
-- numbers. A diagnostic is its code and parameters: the message is a table of the code, and the
-- path is empty.
use rogatio.Prelude.{ℕ, Option, none, some, List, String}
use rogatio.Schema.Types.{RogatioProject}

pub data CoreDiagnosticCode : Type 0 where
  compiler : String → CoreDiagnosticCode
  storage_corrupt storage_conflict conflict project_limit duplicate_name : CoreDiagnosticCode
  duplicate_id not_found install_failed recovery_failed : CoreDiagnosticCode
  rule_not_installed invariant : CoreDiagnosticCode

pub record CoreDiagnostic : Type 0 where
  pub code : CoreDiagnosticCode
  pub project_id : Option String
  pub group_id : Option String
  pub rule_id : Option String
  pub limit : Option ℕ

-- `coreDiagnostic(code)`, and with the parameter `projectId`.
abbrev pub core_diagnostic : CoreDiagnosticCode → CoreDiagnostic
core_diagnostic code = record {
  code = code;
  project_id = none;
  group_id = none;
  rule_id = none;
  limit = none;
}

abbrev pub about_project : CoreDiagnosticCode → String → CoreDiagnostic
about_project code id = record {
  code = code;
  project_id = some id;
  group_id = none;
  rule_id = none;
  limit = none;
}

pub record StoredProject : Type 0 where
  pub id : String
  pub name : String
  pub contents : RogatioProject
  pub revision : ℕ
  pub created_at : ℕ
  pub updated_at : ℕ
  pub enabled_group_ids : List String
  pub mock_file_root : Option String

-- The version is fixed by the type. Notices are kept by project id, each as its text.
pub record StoredEnvelope : Type 0 where
  pub projects : List (String × StoredProject)
  pub active_project_id : Option String
  pub migration_notices : Option (List (String × List String))

pub data CoreResult (A : Type 0) : Type 0 where
  ok : A → CoreResult A
  conflicts : StoredProject → List CoreDiagnostic → CoreResult A
  fails : List CoreDiagnostic → CoreResult A
  -- The promise is rejected, or gives what is no value of the type (a name that every object
  -- inherits was taken for the id of a project).
  strays : CoreResult A
