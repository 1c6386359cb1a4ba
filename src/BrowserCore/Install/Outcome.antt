-- ===== src/BrowserCore/Install/Outcome.antt =====
-- What each outcome of an installation says about the installed set.
use rogatio.Prelude.{◌≡◌, ◌∙◌, refl, Bool, true, false, some, List, [], ◌∷◌, inl, inr, Bool-cases}
use rogatio.Compiler.Types.{RogatioOperation}
use rogatio.BrowserCore.Types.{CoreDiagnostic}
use rogatio.BrowserCore.Install.{
  Answer, succeeds, refuses, throws, Installer, InstallOutcome, InstallResult, done, refused,
  applied, rejected, current, try_install, current_of, install_with, rolled_back, after_install,
  after_current, same_operations, apply_now,
}

-- The set after an installation of a desired set over a previous one.
pub data IsOneOf (desired previous installed : List RogatioOperation) : Type 0 where
  as_desired : installed ≡ desired → IsOneOf desired previous installed
  as_before : installed ≡ previous → IsOneOf desired previous installed

abbrev TriedIsRight : List RogatioOperation → Installer → InstallResult × Installer → Type 0
TriedIsRight operations start (done, final) = final.installed ≡ operations
TriedIsRight operations start (refused diagnostics, final) =
    IsOneOf operations start.installed final.installed

install_with-IsRight :
    (answers : List Answer) (operations : List RogatioOperation) (start : Installer)
    → TriedIsRight operations start (install_with answers operations start)
install_with-IsRight [] operations start = refl
install_with-IsRight (succeeds ∷ answers) operations start = refl
install_with-IsRight (refuses diagnostics ∷ answers) operations start = as_before refl
install_with-IsRight (throws true ∷ answers) operations start = as_desired refl
install_with-IsRight (throws false ∷ answers) operations start = as_before refl

module _ (same_json : List RogatioOperation → List RogatioOperation → Bool)
    (desired : List RogatioOperation) where
  abbrev pub OutcomeIsRight : List RogatioOperation → InstallOutcome × Installer → Type 0
  OutcomeIsRight previous (applied installed true, final) =
      (installed ≡ previous)
      × ((final.installed ≡ previous) × (same_operations same_json desired previous ≡ true))
  OutcomeIsRight previous (applied installed false, final) =
      (installed ≡ desired) × (final.installed ≡ desired)
  OutcomeIsRight previous (rejected true diagnostics, final) = final.installed ≡ previous
  OutcomeIsRight previous (rejected false diagnostics, final) =
      IsOneOf desired previous final.installed

  rolled_back-IsRight :
      (previous : List RogatioOperation) (diagnostics : List CoreDiagnostic) (middle : Installer)
      (result : InstallResult × Installer)
      → IsOneOf desired previous middle.installed
      → TriedIsRight previous middle result
      → OutcomeIsRight previous (rolled_back diagnostics result)
  rolled_back-IsRight previous diagnostics middle (done, final) h back = back
  rolled_back-IsRight previous diagnostics middle (refused others, final) h (as_desired e) =
      as_before e
  rolled_back-IsRight previous diagnostics middle (refused others, final) (as_desired d)
        (as_before e) =
      as_desired (e ∙ d)
  rolled_back-IsRight previous diagnostics middle (refused others, final) (as_before d)
        (as_before e) =
      as_before (e ∙ d)

  after_install-IsRight :
      (start : Installer) (result : InstallResult × Installer)
      → TriedIsRight desired start result
      → OutcomeIsRight start.installed (after_install desired start.installed result)
  unfolding try_install
  after_install-IsRight start (done, final) h = (refl, h)
  after_install-IsRight start (refused diagnostics, middle) h =
      rolled_back-IsRight start.installed diagnostics middle _ h
        (install_with-IsRight middle.answers start.installed middle)

  after_current-IsRight :
      (start : Installer)
      → OutcomeIsRight start.installed
          (after_current same_json desired (some start.installed, start))
  unfolding try_install
  after_current-IsRight start =
      elim (Bool-cases (same_operations same_json desired start.installed)) [
        | inl same ↦ rw same (refl, (refl, same))
        | inr differ ↦
            rw differ
              (after_install-IsRight start _ (install_with-IsRight start.answers desired start))
      ]

  apply_with-IsRight :
      (answers : List Answer) (start : Installer)
      → OutcomeIsRight start.installed (after_current same_json desired (current_of answers start))
  apply_with-IsRight [] start = after_current-IsRight start
  apply_with-IsRight (succeeds ∷ answers) start =
      after_current-IsRight (record start { answers = answers })
  apply_with-IsRight (refuses diagnostics ∷ answers) start =
      after_current-IsRight (record start { answers = answers })
  apply_with-IsRight (throws replaced ∷ answers) start = as_before refl

  -- However the installer's calls end: an outcome that reports an installation leaves the desired
  -- set installed; one that reports that nothing was to do leaves the previous set, which compares
  -- as the same as the desired one; one that reports a recovery leaves the previous set; and any
  -- other failure leaves the desired or the previous set.
  pub apply_now-OutcomeIsRight :
      (start : Installer) → OutcomeIsRight start.installed (apply_now same_json desired start)
  unfolding apply_now current
  apply_now-OutcomeIsRight start = apply_with-IsRight start.answers start
