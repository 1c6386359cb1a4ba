-- ===== src/BrowserCore/Status.antt =====
-- packages/browser-core/src/status.ts: the rules to install, the status of each rule, the badge.
pub mod Badge
use rogatio.Prelude.{
  ℕ, suc, Bool, true, false, ◌||◌, Option, none, some, List, [], ◌∷◌, String, filter, if◌then◌else◌,
}
use rogatio.Prelude.Texts.{includes}
use rogatio.Compiler.Types.{RogatioOperation}
use rogatio.BrowserCore.Types.{CoreDiagnostic, core_diagnostic, rule_not_installed}

pub data RuleStatusKind : Type 0 where
  active disabled needs_runtime needs_root_directory unsupported error : RuleStatusKind

pub record RuleStatus : Type 0 where
  pub group_id : String
  pub rule_id : String
  pub status : RuleStatusKind
  pub diagnostics : Option (List CoreDiagnostic)

-- The text of the badge is the number in decimal.
pub record BadgeState : Type 0 where
  pub count : ℕ
  pub attention : Bool

unfoldable pub compute_desired_rules : List RogatioOperation → List String → List RogatioOperation
compute_desired_rules operations enabled =
    filter (λ operation. includes enabled operation.group_id) operations

unfoldable pub rule_status : List String → List String → RogatioOperation → RuleStatus
rule_status enabled installed operation =
    let status : RuleStatusKind → Option (List CoreDiagnostic) → RuleStatus = λ kind diagnostics.
      record {
        group_id = operation.group_id;
        rule_id = operation.rule_id;
        status = kind;
        diagnostics = diagnostics;
      } in
    if includes enabled operation.group_id
    then (if includes installed operation.rule_id
        then status active none
        else status error (
            some (
              record (core_diagnostic rule_not_installed) {
                rule_id = some operation.rule_id;
                group_id = some operation.group_id;
              }
              ∷ [])))
    else status disabled none

unfoldable pub compute_rule_statuses :
    List RogatioOperation → List String → List String → List RuleStatus
unfolding rule_status
compute_rule_statuses [] enabled installed = []
compute_rule_statuses (operation ∷ operations) enabled installed =
    rule_status enabled installed operation ∷ compute_rule_statuses operations enabled installed

abbrev count_status : RuleStatusKind → BadgeState → BadgeState
count_status active badge = record badge { count = suc badge.count }
count_status disabled badge = badge
count_status _ badge = record badge { attention = true }

unfoldable pub compute_badge : List RuleStatus → BadgeState
compute_badge [] = record { count = 0; attention = false }
compute_badge (rule ∷ statuses) = count_status rule.status (compute_badge statuses)
