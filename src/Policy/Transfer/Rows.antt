-- ===== src/Policy/Transfer/Rows.antt =====
-- The operation matrix: what one more operation changes, and when it carries a byte.
use xpn.Prelude.{
  ℕ, zero, suc, ◌+◌, ◌-◌, ◌≤◌, ◌<◌, ◌≡◌, refl, ap, some, List, [], ◌∷◌, ◌++◌, arith, ◌==◌,
  if◌then◌else◌, get_elem?, get_or, length, replicate,
}
use xpn.Prelude.Int.{pos}
use xpn.Policy.Transfer.{Io, Matrix, push_row, push_io}

abbrev pub row_at : Matrix → ℕ → List Io
row_at rows s = get_or rows s []

-- Operation `op` carries byte `k` of the buffer, to or from byte `l` of the server's part.
pub record Carries (op : Io) (k l : ℕ) : Type 0 where
  pub begins : op.buffer.at ≤ k
  pub ends : k < op.buffer.at + op.size
  pub start : ℕ
  pub starts : op.offset ≡ pos start
  pub local : start + (k - op.buffer.at) ≡ l

-- Some operation on server `s` carries byte `k` of the buffer, to or from its byte `l`.
abbrev pub Carried : Matrix → (s k l : ℕ) → Type 0
Carried rows s k l = (j : ℕ) × (op : Io) × (get_elem? (row_at rows s) j ≡ some op) × Carries op k l

-- The bytes of all operations.
unfoldable pub row_size : List Io → ℕ
row_size [] = 0
row_size (op ∷ row) = op.size + row_size row

unfoldable pub matrix_size : Matrix → ℕ
matrix_size [] = 0
matrix_size (row ∷ rows) = row_size row + matrix_size rows

pub matrix_size-replicate : (n : ℕ) → matrix_size (replicate n []) ≡ 0
unfolding matrix_size row_size
matrix_size-replicate zero = refl
matrix_size-replicate (suc n) = omega (arith, matrix_size-replicate n)

row_size-append : (row : List Io) (op : Io) → row_size (row ++ op ∷ []) ≡ row_size row + op.size
unfolding row_size
row_size-append [] op = omega arith
row_size-append (x ∷ row) op = omega (arith, row_size-append row op)

get_elem?-append :
    {A : Type 0} (xs ys : List A) (j : ℕ) {a : A}
    → get_elem? xs j ≡ some a
    → get_elem? (xs ++ ys) j ≡ some a
get_elem?-append [] ys j h = cc
get_elem?-append (x ∷ xs) ys zero h = h
get_elem?-append (x ∷ xs) ys (suc j) h = get_elem?-append xs ys j h

get_elem?-append_last :
    {A : Type 0} (xs : List A) (a : A) → get_elem? (xs ++ a ∷ []) (length xs) ≡ some a
get_elem?-append_last [] a = refl
get_elem?-append_last (x ∷ xs) a = get_elem?-append_last xs a

-- What a write of `op` into row `i` leaves.
pub record Pushed (i : ℕ) (op : Io) (rows rows' : Matrix) : Type 0 where
  pub width : length rows' ≡ length rows
  pub row : (s : ℕ) → row_at rows' s ≡ (if s == i then row_at rows s ++ op ∷ [] else row_at rows s)
  pub total : matrix_size rows' ≡ matrix_size rows + op.size

push_row-Pushed :
    (i : ℕ) (op : Io) (rows : Matrix)
    → i < length rows
    → (rows' : Matrix) × (push_row i op rows ≡ some rows') × Pushed i op rows rows'
unfolding push_row matrix_size
push_row-Pushed i op [] h = absurd (omega arith)
push_row-Pushed zero op (row ∷ rows) h = (
  (row ++ op ∷ []) ∷ rows,
  refl,
  record { width = refl; row = rows_of; total = omega (arith, row_size-append row op) },
)
  where
    rows_of :
        (s : ℕ)
        → row_at ((row ++ op ∷ []) ∷ rows) s
          ≡ (if s == 0 then row_at (row ∷ rows) s ++ op ∷ [] else row_at (row ∷ rows) s)
    rows_of zero = refl
    rows_of (suc s) = ground arith
push_row-Pushed (suc i) op (row ∷ rows) h =
    let (rows', e, p) = push_row-Pushed i op rows (omega arith) in
    (
      row ∷ rows',
      rw e,
      record { width = ap suc p.width; row = rows_of rows' p; total = omega (arith, p.total) },
    )
  where
    rows_of :
        (rows' : Matrix)
        → Pushed i op rows rows'
        → (s : ℕ)
        → row_at (row ∷ rows') s
          ≡ (if s == suc i then row_at (row ∷ rows) s ++ op ∷ [] else row_at (row ∷ rows) s)
    rows_of rows' p zero = ground arith
    rows_of rows' p (suc s) = ground (arith, p.row s)

pub push_io-Pushed :
    (i : ℕ) (op : Io) (rows : Matrix)
    → i < length rows
    → (rows' : Matrix) × (push_io (pos i) op rows ≡ some rows') × Pushed i op rows rows'
unfolding push_io
push_io-Pushed i op rows h = push_row-Pushed i op rows h

module _ {i : ℕ} {op : Io} {rows rows' : Matrix} (p : Pushed i op rows rows') where
  -- What was carried still is.
  pub Carried-push : (s k l : ℕ) → Carried rows s k l → Carried rows' s k l
  Carried-push s k l (j, o, e, c) =
      (j, o, ground (arith, p.row s, get_elem?-append (row_at rows s) (op ∷ []) j e), c)

  -- What the new operation carries is carried.
  pub Carried-push_self : (k l : ℕ) → Carries op k l → Carried rows' i k l
  Carried-push_self k l c = (
    length (row_at rows i),
    op,
    ground (arith, p.row i, get_elem?-append_last (row_at rows i) op),
    c,
  )
