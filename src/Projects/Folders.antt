-- ===== src/Projects/Folders.antt =====
-- internal/project/store.go: the working folder of a deployment (isWindowsAbsolutePath,
-- validateWorkingFolderForOS). The source walks bytes and the model characters: the letters,
-- colons and separators that it looks for are one byte each and part of no other character, and
-- a path that has them has the length that the source asks for.
use nexusdock.Shared.{
  codes, lowers_to, ℕ, String, trim_space, is_empty, ltb, leb, ◌==◌, List, [], ◌∷◌, Option, none,
  some, Bool, true, false, ◌&&◌, ◌||◌, not, if◌then◌else◌, length,
}
use nexusdock.Continuation.Types.{invalid, Result, ok, err}

abbrev pub is_separator : ℕ → Bool
is_separator c = c == 0x5C || c == b'/'

abbrev pub is_ascii_alpha : ℕ → Bool
is_ascii_alpha c = (leb b'a' c && leb c b'z') || (leb b'A' c && leb c b'Z')

-- A letter, a colon and a separator.
abbrev pub has_drive : List ℕ → Bool
has_drive (a ∷ b ∷ c ∷ rest) = is_ascii_alpha a && b == b':' && is_separator c
has_drive _ = false

-- What stands before the first separator, and behind it; `none` when there is none.
abbrev pub server : List ℕ → List ℕ
server [] = []
server (c ∷ l) = if is_separator c then [] else c ∷ server l

abbrev pub behind : List ℕ → Option (List ℕ)
behind [] = none
behind (c ∷ l) = if is_separator c then some l else behind l

abbrev pub is_nil : List ℕ → Bool
is_nil [] = true
is_nil (c ∷ l) = false

-- The loop over the share: a separator at its start is refused.
abbrev pub names_share : List ℕ → Bool
names_share l = elim (behind l) [ some r ↦ not (is_nil (server l)) | none ↦ not (is_nil l) ]

abbrev pub names_unc : List ℕ → Bool
names_unc rest = elim (behind rest) [
  | none ↦ false
  | some share ↦ not (is_nil (server rest)) && not (is_nil share) && names_share share
]

abbrev pub has_unc : List ℕ → Bool
has_unc (a ∷ b ∷ rest) =
    ltb 2 (length rest) && ((a == 0x5C && b == 0x5C) || (a == b'/' && b == b'/')) && names_unc rest
has_unc _ = false

unfoldable pub is_windows_absolute_path : List ℕ → Bool
is_windows_absolute_path value = has_drive value || has_unc value

abbrev pub starts_with_slash : List ℕ → Bool
starts_with_slash [] = false
starts_with_slash (c ∷ l) = c == b'/'

unfoldable pub is_native_path : String → String → Bool
is_native_path working os =
    let name = trim_space os in
    let posix = starts_with_slash (codes working) in
    let windows = is_windows_absolute_path (codes working) in
    if lowers_to name "linux" || lowers_to name "darwin"
    then posix
    else if lowers_to name "windows"
    then windows
    else posix || windows

unfoldable pub validate_working_folder_for_os : String → String → Result (Unit {0})
validate_working_folder_for_os working os =
    if is_empty (trim_space working)
    then ok tt
    else if is_native_path (trim_space working) os
    then ok tt
    else err invalid
