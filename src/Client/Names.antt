-- ===== src/Client/Names.antt =====
-- The names of files: `XpnGetAbsolutePath` of
-- src/xpn_client/xpn/xpn_simple/policy/xpn_policy_cwd.c, `xpn_simple_chdir` of xpncore/xpn_cwd.c,
-- `XpnGetPartition` and `XpnSearchPart` of policy/xpn_policy_init.c, and `getNamePart` and
-- `getFirstDir` of src/base/path_misc.c. A text is the list of the bytes in front of its NUL, and
-- fits into the caller's buffer.
pub mod Parts
mod Tests
use xpn.Prelude.{
  ℕ, ◌+◌, Bool, true, false, ◌&&◌, Option, none, some, List, [], ◌∷◌, ◌++◌, ◌==◌, if◌then◌else◌,
  ◌>>=◌, length, take,
}

abbrev pub slash : ℕ
slash = b'/'

-- `path[0] != '/'`, where the empty text has its NUL there.
abbrev pub is_absolute : List ℕ → Bool
is_absolute [] = false
is_absolute (c ∷ path) = c == slash

-- `XpnGetAbsolutePath`, whose last step ends the result behind as many characters as `path` has, and
-- one.
unfoldable pub get_absolute_path : (cwd path : List ℕ) → List ℕ
get_absolute_path cwd path =
    take (length path + 1) (if is_absolute path then path else slash ∷ cwd ++ path)

-- `xpn_simple_chdir`: the new directory, which was a path.
unfoldable pub simple_chdir : (cwd path : List ℕ) → List ℕ
simple_chdir cwd path = path

-- The characters up to a slash, and the others.
unfoldable pub to_slash : List ℕ → List ℕ × List ℕ
to_slash [] = ([], [])
to_slash (c ∷ path) =
    let (before, rest) = to_slash path in if c == slash then ([], c ∷ path) else (c ∷ before, rest)

-- `getNamePart`: the part and what is left of the path; a `none` is -1.
unfoldable pub get_name_part : List ℕ → Option (List ℕ × List ℕ)
get_name_part [] = none
get_name_part (c ∷ path) = if c == slash then some (to_slash path) else none

-- The text behind its leading slashes.
unfoldable pub skip_slashes : List ℕ → List ℕ
skip_slashes [] = []
skip_slashes (c ∷ path) = let rest = skip_slashes path in if c == slash then rest else c ∷ path

-- `getFirstDir`: the directory and what is left of the path.
unfoldable pub get_first_dir : List ℕ → List ℕ × List ℕ
get_first_dir path = let (dir, rest) = to_slash path in (dir, skip_slashes rest)

-- What is read of an entry of `xpn_parttable`.
pub record PartName : Type 0 where
  pub id : ℕ
  pub name : List ℕ

-- `strcmp(a, b) == 0`
unfoldable pub same_text : (a b : List ℕ) → Bool
same_text [] [] = true
same_text [] (d ∷ b) = false
same_text (c ∷ a) [] = false
same_text (c ∷ a) (d ∷ b) = let rest = same_text a b in (c == d) && rest

-- The search of `XpnGetPartition`; a `none` is its -1.
unfoldable pub find_partition : List PartName → (part : List ℕ) → Option ℕ
find_partition [] part = none
find_partition (p ∷ parts) part =
    let rest = find_partition parts part in if same_text part p.name then some p.id else rest

-- `XpnGetPartition`: the partition and what is left of the path. Where `getNamePart` fails, the name
-- that is compared was never set; a `none` here.
unfoldable pub get_partition : List PartName → List ℕ → Option (ℕ × List ℕ)
get_partition parts path =
    get_name_part path >>= λ (part, rest). find_partition parts part >>= λ pd. some (pd, rest)

-- `XpnSearchPart`
unfoldable pub search_part : List PartName → (pd : ℕ) → Option PartName
search_part [] pd = none
search_part (p ∷ parts) pd = let rest = search_part parts pd in if p.id == pd then some p else rest
