-- ===== src/Base/Darray/Memory.antt =====
-- Blocks of memory that hold pointers, with checked accesses.
use xpn.Prelude.{
  ℕ, zero, suc, ◌+◌, Option, none, some, List, [], ◌∷◌, ◌++◌, ltb, leb, ◌&&◌, if◌then◌else◌, set,
  take, drop, length,
}

abbrev pub Block : Type 0
Block = List ℕ

-- `t[i] = v`
unfoldable pub write : (i v : ℕ) → Block → Option Block
write i v t = if ltb i (length t) then some (set t i v) else none

-- `memmove(&t[to], &t[from], k * c_POINTER)`
unfoldable pub memmove : (to from k : ℕ) → Block → Option Block
memmove to from k t =
    if leb (to + k) (length t) && leb (from + k) (length t)
    then some (take to t ++ (take k (drop from t) ++ drop (to + k) t))
    else none

-- `realloc(t, k * c_POINTER)`, where new memory holds `junk`.
unfoldable pub realloc : (junk k : ℕ) → Block → Block
realloc junk zero t = []
realloc junk (suc k) [] = junk ∷ realloc junk k []
realloc junk (suc k) (x ∷ t) = x ∷ realloc junk k t
