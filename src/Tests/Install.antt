-- ===== src/Tests/Install.antt =====
-- Installing rules with an installer that fails, and the badge.
use rogatio.Prelude.{◌≡◌, refl, Bool, true, false, none, List, [], ◌∷◌, ◌++◌, All, String}
use rogatio.Schema.Types.{url, script}
use rogatio.Compiler.Types.{RogatioOperation, matcher}
use rogatio.BrowserCore.Types.{core_diagnostic, install_failed}
use rogatio.BrowserCore.Install.{
  Installer, succeeds, throws, rejected, current, try_install, same_operations, apply_now,
  apply_all,
}
use rogatio.BrowserCore.Install.Outcome.{OutcomeIsRight, apply_now-OutcomeIsRight}
use rogatio.BrowserCore.Install.Quiet.{IsApplied, IsSettled, apply_all_quiet}
use rogatio.BrowserCore.Status.{compute_desired_rules, compute_rule_statuses, compute_badge}
use rogatio.BrowserCore.Status.Badge.{expected_badge, compute_badge-compute_rule_statuses}

abbrev rule : String → String → RogatioOperation
rule group id = record {
  group_id = group;
  rule_id = id;
  name = "Rule";
  redact_sensitive_in_logs = false;
  matcher = record {
    source = record { key = url; value = "shop" };
    resource_types = script ∷ [];
    priority = 1;
    method = none;
  };
  kind = matcher;
}

abbrev differ : List RogatioOperation → List RogatioOperation → Bool
differ left right = false

abbrev old_rules : List RogatioOperation
old_rules = rule "g" "r" ∷ []

abbrev new_rules : List RogatioOperation
new_rules = rule "g" "r" ∷ rule "h" "s" ∷ rule "g" "t" ∷ []

-- The installation throws although it has replaced the set; the rollback restores it.
abbrev shaky : Installer
shaky = record { installed = old_rules; answers = succeeds ∷ throws true ∷ succeeds ∷ [] }

recovers : apply_now differ new_rules shaky ≡ (
  rejected true (core_diagnostic install_failed ∷ []),
  record { installed = old_rules; answers = [] },
)
unfolding apply_now current try_install same_operations
recovers = refl

apply_now-OutcomeIsRight_example :
    OutcomeIsRight differ new_rules old_rules (apply_now differ new_rules shaky)
apply_now-OutcomeIsRight_example = apply_now-OutcomeIsRight differ new_rules shaky

abbrev steady : Installer
steady = record { installed = []; answers = [] }

apply_all_quiet_example :
    All IsApplied (apply_all differ ((old_rules ∷ []) ++ new_rules ∷ []) steady).0
    × IsSettled differ new_rules
        (apply_all differ ((old_rules ∷ []) ++ new_rules ∷ []) steady).1.installed
apply_all_quiet_example = apply_all_quiet differ (old_rules ∷ []) new_rules steady refl

compute_badge-compute_rule_statuses_example :
    compute_badge (compute_rule_statuses new_rules ("g" ∷ []) ("r" ∷ []))
    ≡ expected_badge ("r" ∷ []) (compute_desired_rules new_rules ("g" ∷ []))
compute_badge-compute_rule_statuses_example =
    compute_badge-compute_rule_statuses new_rules ("g" ∷ []) ("r" ∷ [])
