-- ===== src/Base/Darray/Walks.antt =====
-- The functions of darray.c that walk to the NULL at the end, and the two that reach beyond it.
use mathlib.Core.List.{append_assoc}
use xpn.Prelude.{
  ◌>>=◌, ℕ, ◌+◌, ◌-◌, ◌≤◌, ◌≡◌, ◌≢◌, refl, sym, ap, ◌∙◌, true, false, none, some, List, [], ◌∷◌,
  ◌++◌, arith, length, length-append, get_elem?, ◌==◌, ltb, inl, inr, Option-cases,
}
use xpn.Base.Darray.{
  ok, ins_end2, del_end, del_end2, del_n, change_n, null_index, get_n, freed_eltos, free_eltos,
}
use xpn.Base.Darray.Memory.{Block, memmove}
use xpn.Base.Darray.Repr.{table, NoNull, write-append, table-append}
use xpn.Base.Darray.Ends.{ins_end-table, del_end-table}

null_index-append :
    (xs : List ℕ) (i : ℕ) → NoNull xs → null_index (xs ++ 0 ∷ []) i ≡ some (i + length xs)
unfolding null_index
null_index-append [] i h = ground arith
null_index-append (x ∷ xs) i h = ground (arith, null_index-append xs (i + 1) h.1)

null_index-none : (xs : List ℕ) (i : ℕ) → NoNull xs → null_index xs i ≡ none
unfolding null_index
null_index-none [] i h = refl
null_index-none (x ∷ xs) i h = ground (arith, null_index-none xs (i + 1) h.1)

-- DARRAY_GetNDarray counts the elements.
pub get_n-table : (xs : List ℕ) → NoNull xs → get_n (table xs) ≡ some (length xs)
unfolding get_n
get_n-table [] h = refl
get_n-table (x ∷ xs) h = null_index-append (x ∷ xs) 0 h ∙ ap some (omega arith)

freed_eltos-append : (xs : List ℕ) → NoNull xs → freed_eltos (xs ++ 0 ∷ []) ≡ some xs
unfolding freed_eltos
freed_eltos-append [] h = refl
freed_eltos-append (x ∷ xs) h = ground (arith, freed_eltos-append xs h.1)

-- DARRAY_FreeEltosDarray hands each element to `freef` once, in order, and leaves no array.
pub free_eltos-table :
    (xs : List ℕ) (n : ℕ) → NoNull xs → free_eltos (table xs) n ≡ some (xs, (ok, none, 0))
unfolding free_eltos
free_eltos-table [] n h = refl
free_eltos-table (x ∷ xs) n h = rw (freed_eltos-append (x ∷ xs) h)

NoNull-append : (xs : List ℕ) (g : ℕ) → NoNull xs → g ≢ 0 → NoNull (xs ++ g ∷ [])
NoNull-append [] g h g_ok = (g_ok, tt)
NoNull-append (x ∷ xs) g h g_ok = (h.0, NoNull-append xs g h.1 g_ok)

ins_end2-table :
    (junk : ℕ) (xs : List ℕ) (g : ℕ)
    → NoNull xs
    → ins_end2 junk true g (table xs) ≡ some (ok, table (xs ++ g ∷ []))
unfolding ins_end2
ins_end2-table junk [] g h = rw (ins_end-table junk [] g)
ins_end2-table junk (x ∷ xs) g h = rw (
  null_index-append (x ∷ xs) 0 h,
  (let e : 0 + length (x ∷ xs) ≡ length (x ∷ xs) = omega arith in e),
  ins_end-table junk (x ∷ xs) g,
)

del_end2-table :
    (xs : List ℕ) (g : ℕ)
    → NoNull (xs ++ g ∷ [])
    → del_end2 (table (xs ++ g ∷ [])) ≡ some (ok, table xs, some g)
unfolding del_end2
del_end2-table xs g h = rw (
  table-append xs g,
  ap (λ t. null_index t 0) (sym (append_assoc xs (g ∷ []) (0 ∷ []))),
  null_index-append (xs ++ g ∷ []) 0 h,
  (let e : 0 + length (xs ++ g ∷ []) ≡ length xs + 1 = omega (arith, length-append xs (g ∷ [])) in
      e),
  ap (λ t. del_end t (length xs + 1)) (sym (table-append xs g)) ∙ del_end-table xs g,
)

-- The array as a stack that ends in NULL: DARRAY_DelEndDarray2 gives back the array and the
-- element that DARRAY_InsEndDarray2 was given.
pub del_end2-ins_end2 :
    (junk : ℕ) (xs : List ℕ) (g : ℕ)
    → NoNull xs
    → g ≢ 0
    → (ins_end2 junk true g (table xs) >>= λ (res, t). del_end2 t) ≡ some (ok, table xs, some g)
unfolding ins_end2 del_end2
del_end2-ins_end2 junk xs g h g_ok =
    rw (ins_end2-table junk xs g h) (del_end2-table xs g (NoNull-append xs g h g_ok))

memmove_past :
    (t : Block) (n orden : ℕ)
    → length t ≡ n + 1
    → orden ≤ n
    → memmove orden (orden + 1) (n - orden + 1) t ≡ none
unfolding memmove
memmove_past t n orden e h = ground arith

-- DARRAY_DelNFromDarray, on an array that is not empty and for each position that it accepts,
-- reads the pointer behind the end of the array's memory.
pub del_n_reads_past :
    (x : ℕ) (xs : List ℕ) (orden : ℕ)
    → orden ≤ length xs + 1
    → del_n (table (x ∷ xs)) (length xs + 1) orden ≡ none
unfolding del_n
del_n_reads_past x xs orden h =
    rw
      (
        (let e : ltb (length xs + 1) orden ≡ false = ground arith in e),
        (let e : ((length xs + 1) == 0) ≡ false = ground arith in e),
      )
      (elim (Option-cases (get_elem? (x ∷ (xs ++ 0 ∷ [])) orden)) [
        | inl missed ↦ rw missed
        | inr (y, got) ↦ rw (
          got,
          memmove_past (x ∷ (xs ++ 0 ∷ [])) (length xs + 1) orden
              (omega (arith, length-append xs (0 ∷ []))) h,
        )
      ])

-- DARRAY_ChangeNFromDarray at the position behind the last element, which it accepts, overwrites
-- the NULL at the end: a walk to the NULL then runs out of the array's memory.
pub change_n_loses_null :
    (x : ℕ) (xs : List ℕ) (ptr : ℕ)
    → NoNull (x ∷ xs)
    → ptr ≢ 0
    → (change_n (table (x ∷ xs)) (length xs + 1) (length xs + 1) ptr >>= λ (res, t, n). get_n t)
      ≡ none
unfolding change_n get_n
change_n_loses_null x xs ptr h p_ok =
    rw
      (
        (let e : ltb (length xs + 1) (length xs + 1) ≡ false = ground arith in e),
        write-append (x ∷ xs) 0 ptr [] (length xs + 1) (omega arith),
      )
      (null_index-none (x ∷ (xs ++ ptr ∷ [])) 0 (NoNull-append (x ∷ xs) ptr h p_ok))
