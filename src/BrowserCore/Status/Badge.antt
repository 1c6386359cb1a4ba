-- ===== src/BrowserCore/Status/Badge.antt =====
-- The badge counts the desired rules that are installed, and asks for attention for any other.
use rogatio.Prelude.{
  ◌≡◌, refl, ap, not, List, [], ◌∷◌, String, length, filter, all, Bool-cases, inl, inr,
}
use rogatio.Prelude.Texts.{includes}
use rogatio.Compiler.Types.{RogatioOperation}
use rogatio.BrowserCore.Status.{
  active, error, BadgeState, compute_desired_rules, rule_status, compute_rule_statuses,
  count_status, compute_badge,
}

-- The badge by its meaning.
abbrev pub expected_badge : List String → List RogatioOperation → BadgeState
expected_badge installed desired = record {
  count = length (filter (λ operation. includes installed operation.rule_id) desired);
  attention = not (all (λ operation. includes installed operation.rule_id) desired);
}

-- The badge over the statuses of all rules shows the number of the rules of enabled groups that
-- are installed, and asks for attention exactly when some rule of an enabled group is not.
pub compute_badge-compute_rule_statuses :
    (operations : List RogatioOperation) (enabled installed : List String)
    → compute_badge (compute_rule_statuses operations enabled installed)
      ≡ expected_badge installed (compute_desired_rules operations enabled)
unfolding compute_badge compute_rule_statuses rule_status compute_desired_rules
compute_badge-compute_rule_statuses [] enabled installed = refl
compute_badge-compute_rule_statuses (operation ∷ operations) enabled installed =
    let h = compute_badge-compute_rule_statuses operations enabled installed in
    elim (Bool-cases (includes enabled operation.group_id)) [
      | inr off ↦ rw off h
      | inl on ↦ elim (Bool-cases (includes installed operation.rule_id)) [
        | inl there ↦ rw (on, there) (ap (count_status active) h)
        | inr missing ↦ rw (on, missing) (ap (count_status error) h)
      ]
    ]
