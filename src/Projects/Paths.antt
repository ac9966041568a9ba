-- ===== src/Projects/Paths.antt =====
-- project/store.go, isWindowsAbsolutePath: the paths that it accepts, by a grammar.
use nexusdock.Shared.{
  ℕ, ◌≡◌, ◌↔◌, refl, ap, List, [], ◌∷◌, ◌++◌, All, some, true, false, ◌&&◌, ◌||◌, not, arith,
  Bool-cases, Option-cases, some-injective, length-append, inl, inr, ◌==◌,
}
use nexusdock.Projects.Folders.{
  is_separator, is_ascii_alpha, has_drive, server, behind, is_nil, names_share, names_unc,
  is_windows_absolute_path,
}

abbrev pub IsPlain : ℕ → Type 0
IsPlain c = is_separator c ≡ false

-- A drive letter with a colon and a separator, or two equal separators, a server, a separator and
-- a share; the server has one character or more and no separator, and the share starts with a
-- character that is no separator.
pub data WindowsPath : List ℕ → Type 0 where
  drive :
      (letter sep : ℕ) (rest : List ℕ)
      → is_ascii_alpha letter ≡ true
      → is_separator sep ≡ true
      → WindowsPath (letter ∷ b':' ∷ sep ∷ rest)
  unc :
      (slash sep c d : ℕ) (host rest : List ℕ)
      → is_separator slash ≡ true
      → All IsPlain (c ∷ host)
      → is_separator sep ≡ true
      → IsPlain d
      → WindowsPath (slash ∷ slash ∷ (c ∷ host ++ sep ∷ d ∷ rest))

-- The server and what follows it.
behind-append :
    (host : List ℕ) (sep : ℕ) (rest : List ℕ)
    → All IsPlain host
    → is_separator sep ≡ true
    → (behind (host ++ sep ∷ rest) ≡ some rest) × (server (host ++ sep ∷ rest) ≡ host)
behind-append [] sep rest a h = rw h (refl, refl)
behind-append (c ∷ host) sep rest a h =
    let r = behind-append host sep rest a.1 h in rw (a.0) (r.0, ap (λ l. c ∷ l) r.1)

behind-split :
    (l rest : List ℕ)
    → behind l ≡ some rest
    → (sep : ℕ) × (l ≡ server l ++ sep ∷ rest) × (is_separator sep ≡ true) × All IsPlain (server l)
behind-split [] rest h = cc
behind-split (c ∷ l) rest h = elim (Bool-cases (is_separator c)) [
  | inl e ↦ rw e (c, ap (λ r. c ∷ r) (some-injective (rw e at h)), e, tt)
  | inr e ↦
      let (sep, same, s, a) = behind-split l rest (rw e at h) in
      rw e (sep, ap (λ r. c ∷ r) same, s, (e, a))
]

names_share-plain : (d : ℕ) (rest : List ℕ) → names_share (d ∷ rest) ≡ not (is_separator d)
names_share-plain d rest = elim (Bool-cases (is_separator d)) [
  | inl e ↦ rw (names_share, e) (ground arith)
  | inr e ↦ elim (Option-cases (behind rest)) [
    | inl f ↦ rw (names_share, e, f) refl
    | inr (r, f) ↦ rw (names_share, e, f, e) refl
  ]
]

-- A server and a share behind the two separators.
names_unc-WindowsPath :
    (slash : ℕ) (rest : List ℕ)
    → is_separator slash ≡ true
    → names_unc rest ≡ true
    → WindowsPath (slash ∷ slash ∷ rest)
names_unc-WindowsPath slash rest s h = elim (Option-cases (behind rest)) [
  | inl e ↦ cc (e, h)
  | inr (share, e) ↦
      split_share share (server rest) (behind-split rest share e) (rw (e, names_unc) at h)
]
  where
    split_share :
        (share host : List ℕ)
        → (sep : ℕ) × (rest ≡ host ++ sep ∷ share) × (is_separator sep ≡ true) × All IsPlain host
        → not (is_nil host) && not (is_nil share) && names_share share ≡ true
        → WindowsPath (slash ∷ slash ∷ rest)
    split_share [] host (sep, same, q, a) k = ground (arith, k)
    split_share (d ∷ r) [] (sep, same, q, a) k = cc
    split_share (d ∷ r) (c ∷ host) (sep, same, q, a) k =
        rw same (unc slash sep c d host r s a q (ground (arith, k, names_share-plain d r)))

two_separators :
    (a b : ℕ)
    → (a == 0x5C && b == 0x5C) || (a == b'/' && b == b'/') ≡ true
    → (b ≡ a) × (is_separator a ≡ true)
two_separators a b h = ground (arith, h)

sound : (l : List ℕ) → is_windows_absolute_path l ≡ true → WindowsPath l
unfolding is_windows_absolute_path
sound [] h = cc
sound (a ∷ []) h = cc
sound (a ∷ b ∷ []) h = ground (arith, h)
sound (a ∷ b ∷ c ∷ rest) h = elim (Bool-cases (has_drive (a ∷ b ∷ c ∷ rest))) [
  | inl e ↦
      let colon : b ≡ b':' = ground (arith, e) in
      rw colon (drive a c rest (ground (arith, e)) (ground (arith, e)))
  | inr e ↦
      let s = two_separators a b (ground (arith, h, e)) in
      rw (s.0) (names_unc-WindowsPath a (c ∷ rest) s.1 (ground (arith, h, e)))
]

complete : (l : List ℕ) → WindowsPath l → is_windows_absolute_path l ≡ true
unfolding is_windows_absolute_path
complete _ (drive letter sep rest h k) = ground (arith, h, k)
complete _ (unc slash sep c d host rest s a q e) =
    let r = behind-append (c ∷ host) sep (d ∷ rest) a q in
    let u : names_unc (c ∷ host ++ sep ∷ d ∷ rest) ≡ true =
      rw (names_unc, r.0, r.1, names_share-plain d rest, e) refl in
    ground (arith, s, u, length-append (c ∷ host) (sep ∷ d ∷ rest))

-- A path is accepted as a Windows path exactly when the grammar has it.
pub is_windows_absolute_path-WindowsPath :
    (l : List ℕ) → (is_windows_absolute_path l ≡ true) ↔ WindowsPath l
is_windows_absolute_path-WindowsPath l = (sound l, complete l)
