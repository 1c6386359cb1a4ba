-- ===== src/BrowserCore/FileRoot.antt =====
-- packages/browser-core/src/migrate.ts: `isAbsoluteMockFileRoot` and `normalizeMockFileRoot`.
use rogatio.Prelude.{
  ℕ, Bool, false, not, ◌&&◌, ◌||◌, Option, none, some, [], ◌∷◌, String, ◌==◌, leb, ltb,
  if◌then◌else◌, any, length,
}
use rogatio.Prelude.Texts.{Text, utf16}
use rogatio.Schema.Types.{max_mock_file_path_length}

-- What a caller hands over: nothing (`undefined` or `null`), a text, or another value.
pub data RootValue : Type 0 where
  nothing : RootValue
  text : String → RootValue
  another : RootValue

abbrev is_letter : ℕ → Bool
is_letter c = (leb b'A' c && leb c b'Z') || (leb b'a' c && leb c b'z')

-- `startsWith("/") && !startsWith("//")`
abbrev pub is_posix_root : Text → Bool
is_posix_root [] = false
is_posix_root (c ∷ []) = c == b'/'
is_posix_root (c ∷ d ∷ rest) = c == b'/' && not (d == b'/')

-- `/^[A-Za-z]:[\\/]/`
abbrev pub is_drive_root : Text → Bool
is_drive_root (c ∷ d ∷ e ∷ rest) = is_letter c && (d == b':' && (e == b'\x5c' || e == b'/'))
is_drive_root _ = false

unfoldable pub is_absolute_mock_file_root : String → Bool
is_absolute_mock_file_root value = is_posix_root (utf16 value) || is_drive_root (utf16 value)

-- packages/schema/src/control.ts
unfoldable pub has_control : String → Bool
has_control value = any (λ c. leb c 0x1f || c == 0x7f) (utf16 value)

-- `none` where the value is refused; otherwise the root, if there is one.
unfoldable pub normalize_mock_file_root : RootValue → Option (Option String)
unfolding has_control is_absolute_mock_file_root
normalize_mock_file_root nothing = some none
normalize_mock_file_root another = none
normalize_mock_file_root (text value) =
    if length (utf16 value) == 0
    then some none
    else if ltb max_mock_file_path_length (length (utf16 value)) || has_control value
    then none
    else if not (is_absolute_mock_file_root value)
    then some none
    else some (some value)

-- The guard of `setMockFileRoot`: a text that is neither empty nor a full path.
unfoldable pub is_relative : RootValue → Bool
unfolding is_absolute_mock_file_root
is_relative nothing = false
is_relative another = false
is_relative (text value) = not (length (utf16 value) == 0) && not (is_absolute_mock_file_root value)

-- The root that `setMockFileRoot` stores: `none` where it fails.
unfoldable pub accepted_root : RootValue → Option (Option String)
unfolding is_relative normalize_mock_file_root
accepted_root root = if is_relative root then none else normalize_mock_file_root root
