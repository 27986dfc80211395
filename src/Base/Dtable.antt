-- ===== src/Base/Dtable.antt =====
-- Dynamic tables of descriptors with a free list, src/base/dtable.c. Each element has memory of
-- its own, which is never given back; `dtable` lists the elements in the order of the array.
pub mod Lifo
pub mod Twice
use xpn.Prelude.{
  ◌>>=◌, ℕ, ◌+◌, Bool, Option, none, some, List, [], ◌∷◌, ◌++◌, ◌==◌, not, if◌then◌else◌, get_elem?,
  set, length,
}
use xpn.Prelude.Int.{ℤ, pos, negsuc, ◌-ℤ◌, index, le_ℤ, eq_ℤ}

-- `dtelto_t`; a pointer is a number, 0 for NULL.
pub record Dtelto : Type 0 where
  pub dt_info : ℕ
  pub next_free : ℤ
  pub myself : ℤ

-- `dtable_t`
pub record Dtable : Type 0 where
  pub dtable : List Dtelto
  pub neltos : ℕ
  pub free_list : ℤ

-- The element that `DARRAY_GetNFromDarray(dt->dtable, i)` points to.
unfoldable pub elto_at : Dtable → ℤ → Option Dtelto
elto_at dt i = index i >>= get_elem? dt.dtable

-- What is written to the memory of that element.
unfoldable pub put_elto : Dtable → ℤ → Dtelto → Option Dtable
put_elto dt i e = index i >>= λ k. some (record dt { dtable = set dt.dtable k e })

-- The branch of `dtable_insert` that allocates. `malloc` and `realloc` say whether these find
-- memory. DARRAY_InsEndDarray fails with -1, which is not the 0 that is tested; it has then counted
-- the element unless the array was NULL.
unfoldable pub alloc_elto : (malloc realloc : Bool) → Dtable → ℕ → Dtable × ℤ
alloc_elto malloc realloc dt info =
    let n = if length dt.dtable == 0 then dt.neltos else dt.neltos + 1 in
    let e : Dtelto = record { dt_info = info; next_free = negsuc 0; myself = pos dt.neltos } in
    if not malloc
    then (dt, negsuc 0)
    else if realloc
    then (record dt { dtable = dt.dtable ++ e ∷ []; neltos = dt.neltos + 1 }, pos dt.neltos)
    else (record dt { neltos = n }, pos n -ℤ pos 1)

-- The branch of `dtable_insert` that takes the first element of the free list.
unfoldable pub reuse_elto : Dtable → ℕ → Option (Dtable × ℤ)
reuse_elto dt info = elto_at dt dt.free_list >>= λ e.
    put_elto dt dt.free_list (record e { dt_info = info; next_free = negsuc 0 }) >>= λ dt1.
    some (record dt1 { free_list = e.next_free }, e.myself)

-- `dtable_insert`
unfoldable pub insert : (malloc realloc : Bool) → Dtable → ℕ → Option (Dtable × ℤ)
insert malloc realloc dt info =
    if info == 0
    then some (dt, negsuc 0)
    else if eq_ℤ dt.free_list (negsuc 0)
    then some (alloc_elto malloc realloc dt info)
    else reuse_elto dt info

-- `dtable_delete`
unfoldable pub delete : Dtable → (fd : ℤ) → Option (Dtable × ℤ)
delete dt fd =
    let freed = elto_at dt fd >>= λ e.
    put_elto dt fd (record e { next_free = dt.free_list }) >>= λ dt1.
    some (record dt1 { free_list = e.myself }, pos 1) in
    if le_ℤ (pos dt.neltos) fd then some (dt, negsuc 0) else freed

-- `dtable_get`; 0 for NULL.
unfoldable pub get : Dtable → (fd : ℤ) → Option ℕ
get dt fd =
    let found = elto_at dt fd >>= λ e. some e.dt_info in
    if le_ℤ (pos dt.neltos) fd then some 0 else found
