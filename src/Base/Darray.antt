-- ===== src/Base/Darray.antt =====
-- Dynamic arrays of pointers, src/base/darray.c. A pointer is a number, 0 for NULL. An array is
-- NULL or the block of memory that `malloc` gave; a result of `none` is an access outside of it.
pub mod Memory
pub mod Repr
pub mod Ends
pub mod Walks
use xpn.Prelude.{
  ◌>>=◌, ℕ, zero, suc, ◌+◌, ◌-◌, Bool, true, false, not, ◌&&◌, ◌||◌, Option, none, some, List, [],
  ◌∷◌, ◌==◌, ltb, leb, if◌then◌else◌, get_elem?, length, drop,
}
use xpn.Prelude.Int.{ℤ, pos, negsuc}
use xpn.Base.Darray.Memory.{Block, write, memmove, realloc}

-- `t_pointerDArray`
abbrev pub Table : Type 0
Table = Option Block

abbrev pub ok : ℤ
ok = pos 1

abbrev pub error : ℤ
error = negsuc 0

-- What is left in `*t` and `*n`, behind the function's result.
abbrev pub Result : Type 0
Result = ℤ × Table × ℕ

-- The same with `*delGPtr`, which is `none` where it is not written.
abbrev pub Removed : Type 0
Removed = ℤ × Table × ℕ × Option ℕ

-- `realloc((*t), ((*n)+1)*c_POINTER)` of what is left, and `free(*t)` where nothing is.
abbrev pub shorten : Block → ℕ → Table
shorten t n = if n == 0 then none else some (realloc 0 (n + 1) t)

-- `junk` is what new memory holds. `memory` says whether `malloc` or `realloc` finds any.
module _ (junk : ℕ) where
  -- DARRAY_InsEndDarray
  pub ins_end : (memory : Bool) → ℕ → Table → ℕ → Option Result
  ins_end memory gptr none n =
      if memory then some (ok, some (gptr ∷ 0 ∷ []), 1) else some (error, none, n)
  ins_end memory gptr (some t) n =
      if memory
      then (write (n + 1) 0 (realloc junk (n + 1 + 1) t) >>= λ t1.
          write (n + 1 - 1) gptr t1 >>= λ t2. some (ok, some t2, n + 1))
      else some (error, some t, n + 1)

-- DARRAY_DelEndDarray
pub del_end : Table → ℕ → Option Removed
del_end none n = some (error, none, n, none)
del_end (some t) n =
    if n == 0
    then some (ok, none, 0, none)
    else (get_elem? t (n - 1) >>= λ x.
        write (n - 1) 0 t >>= λ t1. some (ok, shorten t1 (n - 1), n - 1, some x))

-- DARRAY_DelBeginDarray
pub del_begin : Table → ℕ → Option Removed
del_begin none n = some (error, none, n, none)
del_begin (some t) n =
    if n == 0
    then some (ok, none, 0, none)
    else (get_elem? t 0 >>= λ x. memmove 0 1 (n - 1) t >>= λ t1.
        write (n - 1) 0 t1 >>= λ t2. some (ok, shorten t2 (n - 1), n - 1, some x))

-- DARRAY_DelNFromDarray
pub del_n : Table → ℕ → (orden : ℕ) → Option Removed
del_n none n orden = some (error, none, n, none)
del_n (some t) n orden =
    if ltb n orden
    then some (error, some t, n, none)
    else if n == 0
    then some (ok, none, 0, none)
    else (get_elem? t orden >>= λ x. memmove orden (orden + 1) (n - orden + 1) t >>= λ t1.
        some (ok, shorten t1 (n - 1), n - 1, some x))

-- DARRAY_ChangeNFromDarray
pub change_n : Table → ℕ → (orden : ℕ) → ℕ → Option Result
change_n none n orden ptr = some (error, none, n)
change_n (some t) n orden ptr =
    if ltb n orden
    then some (error, some t, n)
    else (write orden ptr t >>= λ t1. some (ok, some t1, n))

-- DARRAY_FindEltoDarray, over the `k` elements from `i` on; 0 for NULL.
pub find_elto : (findf : ℕ → ℕ → Bool) (gptr : ℕ) → Block → (k i : ℕ) → Option ℕ
find_elto findf gptr t zero i = some 0
find_elto findf gptr t (suc k) i =
    let rest = find_elto findf gptr t k (i + 1) in
    get_elem? t i >>= λ x. if findf gptr x then some x else rest

-- The index of the first NULL of the block, from `i` on: `for (; t[i] != NULL; i++)`.
pub null_index : Block → (i : ℕ) → Option ℕ
null_index [] i = none
null_index (x ∷ t) i = let rest = null_index t (i + 1) in if x == 0 then some i else rest

-- DARRAY_GetNDarray
pub get_n : Table → Option ℕ
get_n none = some 0
get_n (some t) = null_index t 0

-- The elements that DARRAY_FreeEltosDarray and DARRAY_FreeEltosDarray2 hand to `freef`, in order:
-- `for (i=0; (*t)[i]; i++) freef((*t)[i])`.
pub freed_eltos : Block → Option (List ℕ)
freed_eltos [] = none
freed_eltos (x ∷ t) =
    let rest = freed_eltos t >>= λ xs. some (x ∷ xs) in if x == 0 then some [] else rest

-- DARRAY_FreeEltosDarray, with what `freef` is called on.
pub free_eltos : Table → ℕ → Option (List ℕ × Result)
free_eltos none n = some ([], (ok, none, 0))
free_eltos (some t) n = freed_eltos t >>= λ xs. some (xs, (ok, none, 0))

-- The index at which `for (c=0; t[c] && t[c] != elto; c++)` stops.
pub stop_index : (elto : ℕ) → Block → (i : ℕ) → Option ℕ
stop_index elto [] i = none
stop_index elto (x ∷ t) i =
    let rest = stop_index elto t (i + 1) in if (x == 0) || (x == elto) then some i else rest

-- DARRAY_DelEltoDarray
pub del_elto : Table → ℕ → Option (ℤ × Table)
del_elto none elto = some (error, none)
del_elto (some t) elto =
    let found = stop_index elto t 0 >>= λ pentry. get_elem? t pentry >>= λ x.
    if x == 0
    then some (error, some t)
    else (null_index (drop (pentry + 1) t) (pentry + 1) >>= λ c.
        memmove pentry (pentry + 1) (c - pentry) t >>= λ t1.
        some (ok, if c == 1 then none else some (realloc 0 c t1))) in
    if elto == 0 then some (error, some t) else found

-- DARRAY_InsEndDarray2
pub ins_end2 : (junk : ℕ) (memory : Bool) → ℕ → Table → Option (ℤ × Table)
ins_end2 junk memory gptr none = ins_end junk memory gptr none 0 >>= λ (res, t, n). some (res, t)
ins_end2 junk memory gptr (some t) =
    null_index t 0 >>= λ i. ins_end junk memory gptr (some t) i >>= λ (res, t1, n). some (res, t1)

-- DARRAY_DelEndDarray2
pub del_end2 : Table → Option (ℤ × Table × Option ℕ)
del_end2 none = some (error, none, none)
del_end2 (some t) =
    null_index t 0 >>= λ i. del_end (some t) i >>= λ (res, t1, n, x). some (res, t1, x)

-- The index at which `for (i=0; t[i] != NULL && i != orden; i++)` stops.
pub walk_to : (orden : ℕ) → Block → (i : ℕ) → Option ℕ
walk_to orden [] i = none
walk_to orden (x ∷ t) i =
    let rest = walk_to orden t (i + 1) in if (x == 0) || (i == orden) then some i else rest

-- DARRAY_GetNFromDarray2; 0 for NULL.
pub get_n_from2 : Table → (orden : ℕ) → Option ℕ
get_n_from2 none orden = some 0
get_n_from2 (some t) orden =
    walk_to orden t 0 >>= λ i. if i == orden then get_elem? t orden else some 0

-- DARRAY_GetNFromDarray, which does not check its bounds.
unfoldable pub get_n_from : Table → (orden : ℕ) → Option ℕ
get_n_from none orden = some 0
get_n_from (some t) orden = get_elem? t orden
