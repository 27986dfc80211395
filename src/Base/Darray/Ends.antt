-- ===== src/Base/Darray/Ends.antt =====
-- Insertion and removal at the ends of a dynamic array.
use mathlib.Core.List.{append_assoc}
use xpn.Prelude.{
  get_elem?-append_end, ℕ, suc, ◌+◌, ◌-◌, ◌≡◌, refl, sym, ap, ◌∙◌, true, false, some, List, [], ◌∷◌,
  ◌++◌, arith, length, length-append, ◌==◌, take, drop, leb,
}
use xpn.Base.Darray.{ok, ins_end, del_end, del_begin, shorten}
use xpn.Base.Darray.Memory.{write, memmove, realloc}
use xpn.Base.Darray.Repr.{table, write-append, realloc-append, table-append}

realloc_two : (junk : ℕ) → realloc junk 2 (0 ∷ []) ≡ 0 ∷ junk ∷ []
unfolding realloc
realloc_two junk = refl

-- The NULL that an insertion writes behind the last element.
write_null :
    (ys : List ℕ) (junk : ℕ)
    → write (length ys + 1) 0 (ys ++ 0 ∷ junk ∷ []) ≡ some (ys ++ 0 ∷ 0 ∷ [])
write_null ys junk =
    ap (write (length ys + 1) 0) (sym (append_assoc ys (0 ∷ []) (junk ∷ [])))
    ∙ write-append (ys ++ 0 ∷ []) junk 0 [] (length ys + 1)
        (omega (arith, length-append ys (0 ∷ [])))
    ∙ ap some (append_assoc ys (0 ∷ []) (0 ∷ []))

-- DARRAY_InsEndDarray puts the element behind the others.
pub ins_end-table :
    (junk : ℕ) (xs : List ℕ) (g : ℕ)
    → ins_end junk true g (table xs) (length xs) ≡ some (ok, table (xs ++ g ∷ []), length xs + 1)
unfolding ins_end
ins_end-table junk [] g = refl
ins_end-table junk (x ∷ xs) g = rw (
  realloc-append junk 2 (x ∷ xs) (0 ∷ []) (length (x ∷ xs) + 1 + 1) (omega arith),
  realloc_two junk,
  write_null (x ∷ xs) junk,
  write-append (x ∷ xs) 0 g (0 ∷ []) (length (x ∷ xs) + 1 - 1) (omega arith),
  append_assoc xs (g ∷ []) (0 ∷ []),
)

add_sub_one : (n : ℕ) → n + 1 - 1 ≡ n
add_sub_one n = omega arith

add_one_test : (n : ℕ) → ((n + 1) == 0) ≡ false
add_one_test n = ground arith

-- What is left of a block whose first NULL is known.
shorten-table : (xs rest : List ℕ) → shorten (xs ++ 0 ∷ rest) (length xs) ≡ table xs
unfolding realloc
shorten-table [] rest = refl
shorten-table (x ∷ xs) rest = rw (
  (let e : (length (x ∷ xs) == 0) ≡ false = ground arith in e),
  realloc-append 0 1 (x ∷ xs) (0 ∷ rest) (length (x ∷ xs) + 1) refl,
)

-- DARRAY_DelEndDarray takes off what was inserted last.
pub del_end-table :
    (xs : List ℕ) (x : ℕ)
    → del_end (table (xs ++ x ∷ [])) (length xs + 1) ≡ some (ok, table xs, length xs, some x)
unfolding del_end
del_end-table xs x = rw (
  table-append xs x,
  add_one_test (length xs),
  add_sub_one (length xs),
  get_elem?-append_end xs x (0 ∷ []) (length xs) refl,
  write-append xs x 0 (0 ∷ []) (length xs) refl,
  shorten-table xs (0 ∷ []),
)

take-append : (xs ys : List ℕ) → take (length xs) (xs ++ ys) ≡ xs
take-append [] ys = refl
take-append (x ∷ xs) ys = ap (λ t. x ∷ t) (take-append xs ys)

-- What is left behind the elements that were moved down.
drop-last : (x : ℕ) (xs : List ℕ) → (y : ℕ) × (drop (length xs) (x ∷ (xs ++ 0 ∷ [])) ≡ y ∷ 0 ∷ [])
drop-last x [] = (x, refl)
drop-last x (y ∷ xs) = drop-last y xs

move_down :
    (x : ℕ) (xs : List ℕ)
    → (y : ℕ) × (memmove 0 1 (length xs) (x ∷ (xs ++ 0 ∷ [])) ≡ some (xs ++ y ∷ 0 ∷ []))
unfolding memmove
move_down x xs =
    let (y, e) = drop-last x xs in
    (
      y,
      rw (
        (let t : leb (0 + length xs) (suc (length (xs ++ 0 ∷ []))) ≡ true =
              ground (arith, length-append xs (0 ∷ [])) in
            t),
        (let t : leb (1 + length xs) (suc (length (xs ++ 0 ∷ []))) ≡ true =
              ground (arith, length-append xs (0 ∷ [])) in
            t),
        take-append xs (0 ∷ []),
        (let t : 0 + length xs ≡ length xs = omega arith in t),
        e,
      ),
    )

-- DARRAY_DelBeginDarray takes off the first element, and moves the others down.
pub del_begin-table :
    (x : ℕ) (xs : List ℕ)
    → del_begin (table (x ∷ xs)) (length xs + 1) ≡ some (ok, table xs, length xs, some x)
unfolding del_begin
del_begin-table x xs =
    let (y, e) = move_down x xs in
    rw (
      add_one_test (length xs),
      add_sub_one (length xs),
      e,
      write-append xs y 0 (0 ∷ []) (length xs) refl,
      shorten-table xs (0 ∷ []),
    )
