-- ===== src/Client/Files/Dangling.antt =====
-- Descriptors of a file that was closed.
use xpn.Prelude.{
  ℕ, ◌<◌, ◌≤◌, ◌≡◌, ◌≢◌, refl, sym, ap, ◌∙◌, false, none, some, ◌==◌, ltb, arith, get_elem?,
  get_elem?_bound, get_elem?-set_self, get_elem?-set_ne, set, length, length-set, some_injective,
  some_ne_none, ltb-zero, ◌>>=◌,
}
use xpn.Prelude.Int.{pos}
use xpn.Client.Rw.{max_file}
use xpn.Client.Files.{
  Handle, Desc, Files, at, free_slot, add_link, dup, close_desc, close, close_handles,
}
use xpn.Client.Files.Counted.{at-set_self}
use xpn.Client.Files.Runs.{HasFree}

module _ {S : Type 0} (nfi_close : Handle → S → S) where
  dup_open :
      (w : Files S) (n a : ℕ) (d : Desc)
      → length w.table ≤ max_file
      → get_elem? w.table n ≡ some (some a)
      → at w.heap a ≡ some d
      → HasFree w
      → dup (pos n) w ≡ some (add_link w (free_slot w.table 0) a d, pos (free_slot w.table 0))
  unfolding dup
  dup_open w n a d size there live free =
      let small : ltb 1023 n ≡ false =
        ground (arith, size, get_elem?_bound w.table n (some a) there) in
      let inside : (free_slot w.table 0 == 1024) ≡ false =
        ground (arith, size, get_elem?_bound w.table (free_slot w.table 0) none free) in
      rw (small, ltb-zero n, there, inside, live) refl

  close_open :
      (w : Files S) (n a : ℕ)
      → length w.table ≤ max_file
      → get_elem? w.table n ≡ some (some a)
      → close nfi_close (pos n) w
        ≡ (at w.heap a >>= λ d. some (close_desc nfi_close w n a d, pos 0))
  unfolding close
  close_open w n a size there =
      let small : ltb 1023 n ≡ false =
        ground (arith, size, get_elem?_bound w.table n (some a) there) in
      rw (small, ltb-zero n, there) refl

  -- The descriptor of a file with one link is duplicated into a free entry; the copy is closed, and
  -- then the first one.
  -- The file is freed, but the entry of the copy still points to it, and its next use reads memory that
  -- was freed.
  pub close-dup_dangles :
      (w : Files S) (n a : ℕ) (d : Desc)
      → length w.table ≤ max_file
      → get_elem? w.table n ≡ some (some a)
      → at w.heap a ≡ some (record d { links = pos 1 })
      → HasFree w
      → (w1 w2 w3 : Files S) × (i : ℕ) × (dup (pos n) w ≡ some (w1, pos i))
        × (close nfi_close (pos i) w1 ≡ some (w2, pos 0))
        × (close nfi_close (pos n) w2 ≡ some (w3, pos 0))
        × (get_elem? w3.table i ≡ some (some a))
        × (close nfi_close (pos i) w3 ≡ none)
  unfolding close_desc
  close-dup_dangles w n a d size there live free =
      let i : ℕ = free_slot w.table 0 in
      let d1 : Desc = record d { links = pos 1 } in
      let d2 : Desc = record d { links = pos 2 } in
      let w1 : Files S = add_link w i a d1 in
      let w2 : Files S = record w1 { heap = set w1.heap a (some d1) } in
      let w3 : Files S = record w2 {
        os = close_handles nfi_close d.data_vfh w.os;
        heap = set w2.heap a none;
        table = set w2.table n none;
      } in
      let bound : i < length w.table = get_elem?_bound w.table i none free in
      let apart : n ≢ i =
        λ e. some_ne_none (some_injective (sym there ∙ ap (get_elem? w.table) e ∙ free)) in
      let at1 : at w1.heap a ≡ some d2 = at-set_self w.heap a d1 (some d2) live in
      let at2 : at w2.heap a ≡ some d1 = at-set_self w1.heap a d2 (some d1) at1 in
      let at3 : at w3.heap a ≡ none = at-set_self w2.heap a d1 none at2 in
      let copy1 : get_elem? w1.table i ≡ some (some a) =
        get_elem?-set_self w.table i (some a) bound in
      let first2 : get_elem? w2.table n ≡ some (some a) =
        get_elem?-set_ne w.table (some a) (λ e. apart (sym e)) ∙ there in
      let copy3 : get_elem? w3.table i ≡ some (some a) =
        get_elem?-set_ne w2.table none apart ∙ copy1 in
      let size1 : length w1.table ≤ max_file = omega (arith, size, length-set w.table i (some a)) in
      let size3 : length w3.table ≤ max_file = omega (arith, size1, length-set w1.table n none) in
      (
        w1,
        w2,
        w3,
        i,
        dup_open w n a d1 size there live free,
        close_open w1 i a size1 copy1 ∙ rw at1 refl,
        close_open w2 n a size1 first2 ∙ rw at2 refl,
        copy3,
        close_open w3 i a size3 copy3 ∙ rw at3 refl,
      )
