-- ===== src/Policy/Grouping/Totals.antt =====
-- What the servers' answers say about a file, of
-- src/xpn_client/xpn/xpn_simple/policy/xpn_policy_rw.c: the bytes that were read or written, and
-- the size of a file from the sizes of its parts.
use xpn.Prelude.{
  ℕ, ◌+◌, Bool, true, false, not, ◌&&◌, Option, none, some, List, [], ◌∷◌, if◌then◌else◌, get_or,
}
use xpn.Prelude.Int.{ℤ, pos, ◌+ℤ◌, ◌-ℤ◌, ◌%ℤ◌, lt_ℤ, le_ℤ, eq_ℤ}
use xpn.Metadata.{header_size}
use xpn.Policy.Block.{calculate_block_invert}
use xpn.Policy.Transfer.{Matrix, has_failed}
use xpn.Policy.Grouping.{sizes}

-- `XpnReadGetTotalBytes`
abbrev pub read_get_total_bytes : (res_v : List ℤ) → ℤ
read_get_total_bytes [] = pos 0
read_get_total_bytes (r ∷ rs) = r +ℤ read_get_total_bytes rs

-- `total_send`, the bytes of the operations on the servers that have not failed.
abbrev pub total_send : Matrix → (errors : List ℤ) → ℕ
total_send [] errors = 0
total_send (row ∷ rows) [] = total_send rows []
total_send (row ∷ rows) (e ∷ errors) =
    (if has_failed e then 0 else sizes row) + total_send rows errors

-- `total_write`
abbrev pub total_write : Matrix → ℕ
total_write [] = 0
total_write (row ∷ rows) = sizes row + total_write rows

-- `XpnWriteGetTotalBytes`
unfoldable pub write_get_total_bytes : (res_v : List ℤ) → Matrix → (errors : List ℤ) → ℤ
write_get_total_bytes res_v rows errors =
    let res = read_get_total_bytes res_v in
    if eq_ℤ res (pos (total_send rows errors)) then pos (total_write rows) else res

module _ (block_size : ℤ) where
  -- Whether a part of this size ends inside a block.
  abbrev pub is_incomplete : ℤ → Bool
  is_incomplete at_size =
      not (eq_ℤ at_size (pos 0)) && not (eq_ℤ ((at_size -ℤ pos header_size) %ℤ block_size) (pos 0))

  -- The first loop of `XpnGetRealFileSize`, from server `i` on: `total`, and the server of the
  -- first incomplete part, if there is one.
  abbrev pub find_incomplete : (attr : List ℤ) (i : ℕ) (total : ℤ) → ℤ × Option ℕ
  find_incomplete [] i total = (total, none)
  find_incomplete (a ∷ attr) i total =
      let rest = find_incomplete attr (i + 1) (total +ℤ a) in
      if is_incomplete a then (total +ℤ a, some i) else rest

  -- The second loop of `XpnGetRealFileSize`, from server `i` on, over all the sizes `attr`.
  abbrev pub last_serv : (attr : List ℤ) (incomplete : Bool) → (rest : List ℤ) (i serv : ℕ) → ℕ
  last_serv attr incomplete [] i serv = serv
  last_serv attr incomplete (a ∷ rest) i serv =
      let best = get_or attr serv (pos 0) in
      let better = if incomplete then is_incomplete a && le_ℤ a best else le_ℤ best a in
      last_serv attr incomplete rest (i + 1) (if better then i else serv)

-- `XpnGetRealFileSize`; `attr` are the sizes of the parts with their headers.
unfoldable pub get_real_file_size :
    (block_size replication_level data_nserv : ℤ) (attr : List ℤ) → ℤ
get_real_file_size block_size replication_level data_nserv attr =
    let (total, found) = find_incomplete block_size attr 0 (pos 0) in
    let serv : ℕ = elim found [
      | none ↦ last_serv block_size attr false attr 0 0
      | some i ↦ last_serv block_size attr true attr 0 i
    ] in
    let offset = get_or attr serv (pos 0) -ℤ pos header_size in
    let origin =
      calculate_block_invert block_size replication_level data_nserv (pos serv) (offset -ℤ pos 1)
        (pos 0) in
    if eq_ℤ total (pos 0)
    then pos 0
    else if lt_ℤ (pos 0) offset
    then origin.offset +ℤ pos 1
    else pos 0
