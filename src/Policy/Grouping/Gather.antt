-- ===== src/Policy/Grouping/Gather.antt =====
-- What the grouping of operations keeps of them.
use mathlib.Core.List.{append_assoc}
use xpn.Prelude.{
  subst, take-append_left, ℕ, zero, suc, ◌+◌, ◌≤◌, ◌≡◌, refl, sym, ap, ◌∙◌, true, some, List, [],
  ◌∷◌, ◌++◌, arith, leb, length, length-append, length-take, length-drop, take, drop,
}
use xpn.Policy.Block.{Placement}
use xpn.Policy.Transfer.{File, Io, Matrix, user, scratch, write_blocks_block_by_block}
use xpn.Policy.Grouping.{
  Bytes, memcpy, sizes, copy_row, write_group, read_group, write_blocks_all_in_one,
}

abbrev pub slice : (at size : ℕ) → Bytes → Bytes
slice at size bs = take size (drop at bs)

-- The bytes that the operations carry, in the order of the matrix.
abbrev pub row_bytes : Bytes → List Io → Bytes
row_bytes buffer [] = []
row_bytes buffer (op ∷ ops) = slice op.buffer.at op.size buffer ++ row_bytes buffer ops

abbrev pub matrix_bytes : Bytes → Matrix → Bytes
matrix_bytes buffer [] = []
matrix_bytes buffer (row ∷ rows) = row_bytes buffer row ++ matrix_bytes buffer rows

abbrev pub total : Matrix → ℕ
total [] = 0
total (row ∷ rows) = sizes row + total rows

-- Every operation stays inside the buffer.
abbrev pub RowInside : Bytes → List Io → Type 0
RowInside buffer [] = Unit
RowInside buffer (op ∷ ops) = (op.buffer.at + op.size ≤ length buffer) × RowInside buffer ops

abbrev pub Inside : Bytes → Matrix → Type 0
Inside buffer [] = Unit
Inside buffer (row ∷ rows) = RowInside buffer row × Inside buffer rows

length-slice : (at size : ℕ) (bs : Bytes) → at + size ≤ length bs → length (slice at size bs) ≡ size
length-slice at size bs h = omega (arith, length-take size (drop at bs), length-drop at bs)

pub drop-append_left : (xs ys : Bytes) (k : ℕ) → drop (length xs + k) (xs ++ ys) ≡ drop k ys
drop-append_left [] ys k = ap (λ n. drop n ys) (let e : 0 + k ≡ k = omega arith in e)
drop-append_left (x ∷ xs) ys k =
    ap (λ n. drop n (x ∷ (xs ++ ys)))
      (let e : suc (length xs) + k ≡ suc (length xs + k) = omega arith in e)
    ∙ drop-append_left xs ys k

-- A copy to the place behind the bytes that were copied before.
pub memcpy-append :
    (done room src : Bytes) (from size to : ℕ)
    → to ≡ length done
    → size ≤ length room
    → from + size ≤ length src
    → memcpy to from size (done ++ room) src
      ≡ some ((done ++ slice from size src) ++ drop size room)
unfolding memcpy
memcpy-append done room src from size to e fits inside = rw (
  e,
  (let t : leb (length done + size) (length (done ++ room)) ≡ true =
        ground (arith, length-append done room) in
      t),
  (let t : leb (from + size) (length src) ≡ true = ground arith in t),
  take-append_left done room,
  drop-append_left done room size,
  append_assoc done (slice from size src) (drop size room),
)

drop_nil : (n : ℕ) → drop {A = ℕ} n [] ≡ []
drop_nil zero = refl
drop_nil (suc n) = refl

pub drop-drop : (a b : ℕ) (xs : Bytes) → drop b (drop a xs) ≡ drop (a + b) xs
drop-drop zero b xs = ap (λ n. drop n xs) (let e : b ≡ 0 + b = omega arith in e)
drop-drop (suc a) b [] = drop_nil b ∙ sym (drop_nil (suc a + b))
drop-drop (suc a) b (x ∷ xs) =
    drop-drop a b xs
    ∙ ap (λ n. drop n (x ∷ xs)) (let e : suc (a + b) ≡ suc a + b = omega arith in e)

-- A row is copied behind the bytes that were copied before.
copy_row-bytes :
    (buffer : Bytes) (ops : List Io) (done room : Bytes) (count : ℕ)
    → count ≡ length done
    → RowInside buffer ops
    → sizes ops ≤ length room
    → copy_row buffer ops count (done ++ room)
      ≡ some (count + sizes ops, (done ++ row_bytes buffer ops) ++ drop (sizes ops) room)
unfolding copy_row
copy_row-bytes buffer [] done room count e inside fits =
    rw (append_assoc done [] room) (ap (λ n. some (n, done ++ room)) (omega arith))
copy_row-bytes buffer (op ∷ ops) done room count e inside fits =
    let first = slice op.buffer.at op.size buffer in
    let after =
      copy_row-bytes buffer ops (done ++ first) (drop op.size room) (count + op.size)
        (omega
          (arith, e, length-append done first, length-slice op.buffer.at op.size buffer inside.0))
        inside.1 (omega (arith, fits, length-drop op.size room)) in
    rw (
      memcpy-append done room buffer op.buffer.at op.size count e (omega (arith, fits)) inside.0,
      after,
      append_assoc done first (row_bytes buffer ops),
      drop-drop op.size (sizes ops) room,
      (let t : count + op.size + sizes ops ≡ count + (op.size + sizes ops) = omega arith in t),
    )

row_bytes-length :
    (buffer : Bytes) (ops : List Io)
    → RowInside buffer ops
    → length (row_bytes buffer ops) ≡ sizes ops
row_bytes-length buffer [] inside = refl
row_bytes-length buffer (op ∷ ops) inside = omega (
  arith,
  length-append (slice op.buffer.at op.size buffer) (row_bytes buffer ops),
  length-slice op.buffer.at op.size buffer inside.0,
  row_bytes-length buffer ops inside.1,
)

write_group-bytes :
    (buffer : Bytes) (rows : Matrix) (done room : Bytes) (count server_count : ℕ)
    → count ≡ length done
    → Inside buffer rows
    → total rows ≤ length room
    → write_group buffer rows count server_count (done ++ room)
      ≡ some (
        read_group server_count rows,
        (done ++ matrix_bytes buffer rows) ++ drop (total rows) room,
      )
unfolding write_group read_group
write_group-bytes buffer [] done room count server_count e inside fits =
    rw (append_assoc done [] room)
write_group-bytes buffer ([] ∷ rows) done room count server_count e inside fits = rw (
  write_group-bytes buffer rows done room count server_count e inside.1 (omega (arith, fits)),
  (let t : 0 + total rows ≡ total rows = omega arith in t),
)
write_group-bytes buffer ((op ∷ ops) ∷ rows) done room count server_count e inside fits =
    let row = row_bytes buffer (op ∷ ops) in
    let l = sizes (op ∷ ops) in
    let after =
      write_group-bytes buffer rows (done ++ row) (drop l room) (count + l) (server_count + l)
        (omega (arith, e, length-append done row, row_bytes-length buffer (op ∷ ops) inside.0))
        inside.1 (omega (arith, fits, length-drop l room)) in
    rw (
      copy_row-bytes buffer (op ∷ ops) done room count e inside.0 (omega (arith, fits)),
      after,
      append_assoc done row (matrix_bytes buffer rows),
      drop-drop l (total rows) room,
    )

append_nil : (xs : Bytes) → xs ++ [] ≡ xs
append_nil [] = refl
append_nil (x ∷ xs) = ap (λ t. x ∷ t) (append_nil xs)

drop_all : (xs : Bytes) → drop (length xs) xs ≡ []
drop_all [] = refl
drop_all (x ∷ xs) = drop_all xs

total-matrix_bytes :
    (buffer : Bytes) (rows : Matrix)
    → Inside buffer rows
    → total rows ≡ length (matrix_bytes buffer rows)
total-matrix_bytes buffer [] inside = refl
total-matrix_bytes buffer (row ∷ rows) inside = omega (
  arith,
  length-append (row_bytes buffer row) (matrix_bytes buffer rows),
  row_bytes-length buffer row inside.0,
  total-matrix_bytes buffer rows inside.1,
)

-- The rows that a group stands for, from the place `at` of the send buffer on: nothing for a row
-- without operations, and otherwise one operation at the offset of the row's first one. It takes from
-- the send buffer, behind the rows before it, as many bytes as the row has, and these are the bytes
-- that the operations of the row took from the caller's buffer.
pub data Grouped (buffer send : Bytes) : (at : ℕ) → Matrix → Matrix → Type 0 where
  no_rows : (at : ℕ) → Grouped buffer send at [] []
  no_operation :
      (at : ℕ) (rows rows' : Matrix)
      → Grouped buffer send at rows rows'
      → Grouped buffer send at ([] ∷ rows) ([] ∷ rows')
  one_operation :
      (at : ℕ) (op : Io) (ops : List Io) (io : Io) (rows rows' : Matrix)
      → io.offset ≡ op.offset
      → io.size ≡ length (row_bytes buffer (op ∷ ops))
      → io.buffer ≡ record { base = scratch; at = at }
      → slice at io.size send ≡ row_bytes buffer (op ∷ ops)
      → Grouped buffer send (at + io.size) rows rows'
      → Grouped buffer send at ((op ∷ ops) ∷ rows) ((io ∷ []) ∷ rows')

slice-append :
    (done row rest : Bytes) (at size : ℕ)
    → at ≡ length done
    → size ≡ length row
    → slice at size (done ++ (row ++ rest)) ≡ row
slice-append done row rest at size e e' =
    rw
      (
        e,
        e',
        (let t : length done ≡ length done + 0 = omega arith in
            ap (λ n. drop n (done ++ (row ++ rest))) t),
        drop-append_left done (row ++ rest) 0,
      )
      (take-append_left row rest)

read_group-Grouped :
    (buffer done : Bytes) (rows : Matrix) (at : ℕ)
    → at ≡ length done
    → Inside buffer rows
    → Grouped buffer (done ++ matrix_bytes buffer rows) at rows (read_group at rows)
unfolding read_group
read_group-Grouped buffer done [] at e inside = no_rows at
read_group-Grouped buffer done ([] ∷ rows) at e inside =
    no_operation at rows (read_group at rows) (read_group-Grouped buffer done rows at e inside.1)
read_group-Grouped buffer done ((op ∷ ops) ∷ rows) at e inside =
    let row = row_bytes buffer (op ∷ ops) in
    let l = sizes (op ∷ ops) in
    let fits : length row ≡ l = row_bytes-length buffer (op ∷ ops) inside.0 in
    let rest =
      read_group-Grouped buffer (done ++ row) rows (at + l)
        (omega (arith, e, fits, length-append done row)) inside.1 in
    one_operation at op ops _ rows (read_group (at + l) rows) refl (sym fits) refl
      (slice-append done row (matrix_bytes buffer rows) at l e (sym fits))
      (subst (λ bs. Grouped buffer bs (at + l) rows (read_group (at + l) rows))
        (append_assoc done row (matrix_bytes buffer rows)) rest)

-- Where the operations that `XpnWriteBlocksBlockByBlock` gives stay inside the caller's buffer, and the
-- send buffer has room for their bytes and no more, `XpnWriteBlocksAllInOne` fills the send buffer
-- with the bytes of the operations, server after server, and leaves one operation for each server
-- that has any: it begins at the offset of the first one, and takes from the send buffer, behind the
-- bytes of the servers before, the bytes that the server's operations took from the caller's.
pub write_blocks_all_in_one-Grouped :
    (f : File) (size offset num_servers : ℕ) (out : Placement) (buffer send_buffer : Bytes)
    (rows : Matrix)
    → write_blocks_block_by_block f user size offset num_servers out ≡ some rows
    → Inside buffer rows
    → length send_buffer ≡ length (matrix_bytes buffer rows)
    → (rows' : Matrix) × (write_blocks_all_in_one f size offset num_servers out buffer send_buffer
        ≡ some (rows', matrix_bytes buffer rows))
      × Grouped buffer (matrix_bytes buffer rows) 0 rows rows'
unfolding write_blocks_all_in_one
write_blocks_all_in_one-Grouped f size offset n out buffer send_buffer rows blocks inside e =
    let room : length send_buffer ≡ total rows = e ∙ sym (total-matrix_bytes buffer rows inside) in
    (
      read_group 0 rows,
      rw blocks (
          write_group-bytes buffer rows [] send_buffer 0 0 refl inside (omega (arith, room))
          ∙ ap (λ bs. some (read_group 0 rows, bs))
              (rw (sym room, drop_all send_buffer) (append_nil (matrix_bytes buffer rows)))),
      read_group-Grouped buffer [] rows 0 refl inside,
    )
