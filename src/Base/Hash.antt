-- ===== src/Base/Hash.antt =====
-- The hashes of file names: `hash` of src/base/path_misc.c and `MATH_MISC_hash` of
-- src/base/math_misc.c. A name is its bytes; `char` is signed.
pub mod Names
use xpn.Prelude.{
  ℕ, zero, suc, ◌+◌, ◌-◌, ◌^◌, ◌%◌, Bool, true, Option, none, some, List, [], ◌∷◌, ltb, ◌==◌,
  if◌then◌else◌, length, take,
}
use xpn.Prelude.Int.{ℤ, pos, negsuc, ◌%ℤ◌}

-- A `char` that is converted to `int` and then to an unsigned type of `w` bits.
abbrev pub extended : (w b : ℕ) → ℕ
extended w b = if ltb b 128 then b else 2 ^ w - 256 + b

-- The sum of the characters in an unsigned variable of `w` bits that holds `num`.
unfoldable pub add_chars : (w : ℕ) → List ℕ → (num : ℕ) → ℕ
add_chars w [] num = num
add_chars w (b ∷ bs) num = add_chars w bs ((num + extended w b) % 2 ^ w)

-- `(int)num`
unfoldable pub as_int : ℕ → ℤ
as_int num =
    let low = num % 2 ^ 32 in if ltb low (2 ^ 31) then pos low else negsuc (2 ^ 32 - 1 - low)

-- `hash` behind the choice of the part of the path.
unfoldable pub hash_name : List ℕ → (n_serv : ℕ) → ℤ
hash_name name n_serv = as_int (add_chars 32 name 0) %ℤ pos n_serv

-- PATH_MAX
abbrev pub path_max : ℕ
path_max = 4096

-- `hash`; `basename` and `dirname` are the C library's. A path of `path_max - 1` characters or more,
-- which `strncpy` leaves without an end, is taken to end there.
unfoldable pub hash :
    (basename dirname : List ℕ → List ℕ) (path : List ℕ) (n_serv : ℕ) (isfile : ℕ) → ℤ
hash basename dirname path n_serv isfile =
    let file = take (path_max - 1) path in
    let aux_file = if isfile == 1 then basename file else basename (dirname file) in
    hash_name aux_file n_serv

-- `MATH_MISC_hash`; a `none` for `file` is NULL. The sum leaves out the last character.
unfoldable pub math_misc_hash : Option (List ℕ) → (n_serv : ℕ) → ℤ
math_misc_hash none n_serv = negsuc 0
math_misc_hash (some file) n_serv =
    as_int (add_chars 64 (take (length file - 1) file) 0) %ℤ pos n_serv
