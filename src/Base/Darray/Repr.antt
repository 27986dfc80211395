-- ===== src/Base/Darray/Repr.antt =====
-- A dynamic array as the list of its elements: NULL for none, and else the elements and a NULL.
use mathlib.Core.List.{append_assoc}
use xpn.Prelude.{
  ℕ, suc, ◌+◌, ◌≡◌, ◌≢◌, refl, ap, ◌∙◌, none, some, List, [], ◌∷◌, ◌++◌, arith, set, length,
  length-append, lt→ltb,
}
use xpn.Base.Darray.{Table}
use xpn.Base.Darray.Memory.{Block, write, realloc}

abbrev pub table : List ℕ → Table
table [] = none
table (x ∷ xs) = some (x ∷ (xs ++ 0 ∷ []))

abbrev pub NoNull : List ℕ → Type 0
NoNull [] = Unit
NoNull (x ∷ xs) = (x ≢ 0) × NoNull xs

set-append : (xs : List ℕ) (y v : ℕ) (zs : List ℕ) → set (xs ++ y ∷ zs) (length xs) v ≡ xs ++ v ∷ zs
set-append [] y v zs = refl
set-append (x ∷ xs) y v zs = ap (λ t. x ∷ t) (set-append xs y v zs)

-- A block in two parts, written just behind the first.
pub write-append :
    (xs : List ℕ) (y v : ℕ) (zs : List ℕ) (i : ℕ)
    → i ≡ length xs
    → write i v (xs ++ y ∷ zs) ≡ some (xs ++ v ∷ zs)
unfolding write
write-append xs y v zs i e = rw (
  e,
  lt→ltb (length xs) (length (xs ++ y ∷ zs)) (omega (arith, length-append xs (y ∷ zs))),
  set-append xs y v zs,
)

realloc-append_add :
    (junk k : ℕ) (xs ys : Block) → realloc junk (length xs + k) (xs ++ ys) ≡ xs ++ realloc junk k ys
unfolding realloc
realloc-append_add junk k [] ys = ap (λ n. realloc junk n ys) (let e : 0 + k ≡ k = omega arith in e)
realloc-append_add junk k (x ∷ xs) ys =
    ap (λ n. realloc junk n (x ∷ (xs ++ ys)))
      (let e : suc (length xs) + k ≡ suc (length xs + k) = omega arith in e)
    ∙ ap (λ t. x ∷ t) (realloc-append_add junk k xs ys)

pub realloc-append :
    (junk k : ℕ) (xs ys : Block) (n : ℕ)
    → n ≡ length xs + k
    → realloc junk n (xs ++ ys) ≡ xs ++ realloc junk k ys
realloc-append junk k xs ys n e = rw e (realloc-append_add junk k xs ys)

-- The block of a table that is not empty.
pub table-append : (xs : List ℕ) (x : ℕ) → table (xs ++ x ∷ []) ≡ some (xs ++ x ∷ 0 ∷ [])
table-append [] x = refl
table-append (y ∷ xs) x = ap (λ t. some (y ∷ t)) (append_assoc xs (x ∷ []) (0 ∷ []))
