-- ===== src/BrowserCore/Install/Quiet.antt =====
-- Progress of the installation queue, when no call of the installer fails.
use rogatio.Prelude.{
  ◌≡◌, ◌⊎◌, refl, Bool, true, false, List, [], ◌∷◌, ◌++◌, All, inl, inr, Bool-cases,
}
use rogatio.Compiler.Types.{RogatioOperation}
use rogatio.BrowserCore.Install.{
  Installer, InstallOutcome, applied, rejected, current, try_install, current_of, install_with,
  after_install, after_current, same_operations, apply_now, apply_all,
}

abbrev pub is_applied : InstallOutcome → Bool
is_applied (applied installed noop) = true
is_applied (rejected recovered diagnostics) = false

abbrev pub IsApplied : InstallOutcome → Type 0
IsApplied outcome = is_applied outcome ≡ true

module _ (same_json : List RogatioOperation → List RogatioOperation → Bool) where
  -- The set is the desired one, or compares as the same.
  abbrev pub IsSettled : List RogatioOperation → List RogatioOperation → Type 0
  IsSettled desired installed =
      (installed ≡ desired) ⊎ (same_operations same_json desired installed ≡ true)

  abbrev Settles : List RogatioOperation → InstallOutcome × Installer → Type 0
  Settles desired (outcome, final) =
      IsApplied outcome × ((final.answers ≡ []) × IsSettled desired final.installed)

  apply_now_quiet :
      (desired : List RogatioOperation) (start : Installer)
      → start.answers ≡ []
      → Settles desired (apply_now same_json desired start)
  unfolding apply_now current try_install
  apply_now_quiet desired start quiet =
      elim (Bool-cases (same_operations same_json desired start.installed)) [
        | inl same ↦ rw (quiet, current_of, same, after_current) (refl, (refl, inr same))
        | inr differ ↦
            rw (quiet, current_of, differ, after_current, install_with, after_install)
              (refl, (refl, inl refl))
      ]

  -- When no call of the installer fails, every call of `apply` in a queue succeeds, and at the end
  -- the installed set is the one that the last call desired, or compares as the same.
  pub apply_all_quiet :
      (sets : List (List RogatioOperation)) (desired : List RogatioOperation) (start : Installer)
      → start.answers ≡ []
      → All IsApplied (apply_all same_json (sets ++ desired ∷ []) start).0
        × IsSettled desired (apply_all same_json (sets ++ desired ∷ []) start).1.installed
  unfolding apply_all
  apply_all_quiet [] desired start quiet =
      let (is, (still, settled)) = apply_now_quiet desired start quiet in ((is, tt), settled)
  apply_all_quiet (first ∷ sets) desired start quiet =
      let (is, (still, settled)) = apply_now_quiet first start quiet in
      let (all_applied, last) =
        apply_all_quiet sets desired (apply_now same_json first start).1 still in
      ((is, all_applied), last)
