-- ===== src/BrowserCore/Install.antt =====
-- packages/browser-core/src/install.ts, and the RuleInstallerAdapter contract of types.ts: the set
-- of installed rules, which an installation replaces as a whole, or rolls back. `apply` queues its
-- calls, so that they run one after the other.
pub mod Outcome
pub mod Quiet
use rogatio.Prelude.{
  ℕ, Bool, true, false, ◌&&◌, Option, none, some, List, [], ◌∷◌, ◌++◌, length, ◌==◌, if◌then◌else◌,
}
use rogatio.Compiler.Types.{RogatioOperation}
use rogatio.BrowserCore.Types.{CoreDiagnostic, core_diagnostic, install_failed, recovery_failed}

-- How a call of the installer ends. A call that throws may have replaced the set before.
pub data Answer : Type 0 where
  succeeds : Answer
  refuses : List CoreDiagnostic → Answer
  throws : Bool → Answer

-- With no answer left, calls succeed.
pub record Installer : Type 0 where
  pub installed : List RogatioOperation
  pub answers : List Answer

pub data InstallResult : Type 0 where
  done : InstallResult
  refused : List CoreDiagnostic → InstallResult

pub data InstallOutcome : Type 0 where
  applied : List RogatioOperation → Bool → InstallOutcome
  rejected : Bool → List CoreDiagnostic → InstallOutcome

-- `current`: `none` when it throws.
abbrev current_of : List Answer → Installer → Option (List RogatioOperation) × Installer
current_of [] installer = (some installer.installed, installer)
current_of (throws replaced ∷ answers) installer = (none, record installer { answers = answers })
current_of (_ ∷ answers) installer =
    (some installer.installed, record installer { answers = answers })

unfoldable pub current : Installer → Option (List RogatioOperation) × Installer
current installer = current_of installer.answers installer

-- `tryInstall`
abbrev install_with : List Answer → List RogatioOperation → Installer → InstallResult × Installer
install_with [] operations installer = (done, record installer { installed = operations })
install_with (succeeds ∷ answers) operations installer =
    (done, record { installed = operations; answers = answers })
install_with (refuses diagnostics ∷ answers) operations installer =
    (refused diagnostics, record installer { answers = answers })
install_with (throws true ∷ answers) operations installer = (
  refused (core_diagnostic install_failed ∷ []),
  record { installed = operations; answers = answers },
)
install_with (throws false ∷ answers) operations installer =
    (refused (core_diagnostic install_failed ∷ []), record installer { answers = answers })

unfoldable pub try_install : List RogatioOperation → Installer → InstallResult × Installer
try_install operations installer = install_with installer.answers operations installer

-- After the rollback of an installation that was refused.
abbrev rolled_back : List CoreDiagnostic → InstallResult × Installer → InstallOutcome × Installer
rolled_back diagnostics (done, installer) = (rejected true diagnostics, installer)
rolled_back diagnostics (refused others, installer) =
    (rejected false (diagnostics ++ core_diagnostic recovery_failed ∷ []), installer)

abbrev after_install :
    List RogatioOperation
    → List RogatioOperation
    → InstallResult × Installer
    → InstallOutcome × Installer
after_install desired previous (done, installer) = (applied desired false, installer)
after_install desired previous (refused diagnostics, installer) =
    rolled_back diagnostics (try_install previous installer)

-- `same_json`: the texts of `JSON.stringify` are the same.
module _ (same_json : List RogatioOperation → List RogatioOperation → Bool) where
  unfoldable pub same_operations : List RogatioOperation → List RogatioOperation → Bool
  same_operations left right = length left == length right && same_json left right

  abbrev after_current :
      List RogatioOperation
      → Option (List RogatioOperation) × Installer
      → InstallOutcome × Installer
  after_current desired (none, installer) =
      (rejected false (core_diagnostic install_failed ∷ []), installer)
  after_current desired (some previous, installer) =
      if same_operations desired previous
      then (applied previous true, installer)
      else after_install desired previous (try_install desired installer)

  unfoldable pub apply_now : List RogatioOperation → Installer → InstallOutcome × Installer
  apply_now desired installer = after_current desired (current installer)

  -- Calls of `apply`, in the order of the calls.
  unfoldable pub apply_all :
      List (List RogatioOperation) → Installer → List InstallOutcome × Installer
  unfolding apply_now
  apply_all [] installer = ([], installer)
  apply_all (desired ∷ later) installer =
      let (outcome, next) = apply_now desired installer in
      let (outcomes, last) = apply_all later next in (outcome ∷ outcomes, last)
