-- ===== src/Client/Files/Reached.antt =====
-- The states of the table of open files that sequences of calls reach.
use xpn.Prelude.{
  ℕ, ◌≡◌, refl, sym, ap, ◌∙◌, subst, Bool, Option, none, some, List, [], length-replicate,
  some_injective, some_ne_none,
}
use xpn.Prelude.Int.{ℤ}
use xpn.Metadata.{Metadata}
use xpn.Client.Rw.{max_file}
use xpn.Client.Files.{Handle, Files, init_file_table, search_slot_file, dup, dup2, close}
use xpn.Client.Files.Counted.{count_free}
use xpn.Client.Files.Runs.{
  IsTable, HasFree, IsOnly, Fine, dup-IsTable, dup2-IsTable, close-IsTable,
  search_slot_file-IsTable,
}

-- A call on the table, with what it is given.
pub data Call : Type 0 where
  search_call :
      (memory : Bool) (pd block_size : ℕ) (path : List ℕ) (vfh : List (Option Handle))
      (mdata : Metadata) (flags mode : ℕ)
      → Call
  dup_call : (fd : ℤ) → Call
  dup2_call : (fd fd2 : ℤ) → Call
  close_call : (fd : ℤ) → Call

module _ {S : Type 0} (nfi_close : Handle → S → S) where
  abbrev pub step : Call → Files S → Option (Files S × ℤ)
  step (search_call memory pd block_size path vfh mdata flags mode) w =
      some (search_slot_file memory pd block_size path vfh mdata flags mode w)
  step (dup_call fd) w = dup fd w
  step (dup2_call fd fd2) w = dup2 fd fd2 w
  step (close_call fd) w = close nfi_close fd w

  abbrev pub Allowed : Call → Files S → Type 0
  Allowed (search_call memory pd block_size path vfh mdata flags mode) w = HasFree w
  Allowed (dup_call fd) w = HasFree w
  Allowed (dup2_call fd fd2) w = Unit
  Allowed (close_call fd) w = IsOnly w fd

  -- The states that allowed calls reach.
  pub data Run (start : Files S) : Files S → Type 0 where
    begin : Run start start
    next :
        {w w' : Files S} {r : ℤ}
        → Run start w
        → (c : Call) → Allowed c w
        → step c w ≡ some (w', r)
        → Run start w'

  step-IsTable : (c : Call) (w : Files S) → IsTable w → Allowed c w → Fine (step c w)
  step-IsTable (search_call memory pd block_size path vfh mdata flags mode) w h free = (
    (search_slot_file memory pd block_size path vfh mdata flags mode w).0,
    (search_slot_file memory pd block_size path vfh mdata flags mode w).1,
    refl,
    search_slot_file-IsTable memory pd block_size path vfh mdata flags mode w h free,
  )
  step-IsTable (dup_call fd) w h free = dup-IsTable w fd h free
  step-IsTable (dup2_call fd fd2) w h free = dup2-IsTable w fd fd2 h
  step-IsTable (close_call fd) w h only = close-IsTable nfi_close w fd h only

  reached-IsTable : (start w : Files S) → IsTable start → Run start w → IsTable w
  reached-IsTable start w h begin = h
  reached-IsTable start w h (next {w = w1} run c allowed e) =
      let (w', r', e', h') = step-IsTable c w1 (reached-IsTable start w1 h run) allowed in
      subst IsTable (ap (λ p. p.0) (some_injective (sym e' ∙ e))) h'

  new-IsTable : (start : Files S) → start.heap ≡ [] → IsTable (init_file_table start)
  unfolding init_file_table
  new-IsTable start e = record {
    full_size = length-replicate {A = Option ℕ} max_file none;
    counted = rw e (record {
      live = λ a d is. absurd (some_ne_none (sym is));
      dead = λ a is. count_free a max_file;
    });
  }

  -- From a new table on, whatever files are opened, duplicated and closed, where there is a free entry
  -- for each new descriptor of `XpnSearchSlotFile` and `xpn_simple_dup`, and no descriptor of a file
  -- that has another one is closed: the links of each file are its descriptors, no descriptor points
  -- to memory that was freed, and the next such call stays within its bounds.
  pub Run-IsTable :
      (start w : Files S)
      → start.heap ≡ []
      → Run (init_file_table start) w
      → IsTable w × ((c : Call) → Allowed c w → Fine (step c w))
  Run-IsTable start w e run =
      let h : IsTable w = reached-IsTable (init_file_table start) w (new-IsTable start e) run in
      (h, λ c allowed. step-IsTable c w h allowed)
