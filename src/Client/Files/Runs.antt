-- ===== src/Client/Files/Runs.antt =====
-- Sequences of calls on the table of open files, as long as the table has a free entry for each new
-- descriptor and no descriptor of a file that has others is closed.
use xpn.Prelude.{
  ℕ, zero, suc, ◌<◌, ◌≡◌, ◌⊎◌, refl, sym, ap, ◌∙◌, Bool, true, false, Option, none, some, List, [],
  ◌∷◌, ◌==◌, ltb, arith, get_elem?, get_elem?_bound, get_elem?_total, set, length, length-set,
  some_injective, Bool-cases, Option-cases, inl, inr, ltb-zero,
}
use xpn.Prelude.Int.{ℤ, pos, negsuc, eq_ℤ, ◌+ℤ◌, ◌-ℤ◌}
use xpn.Metadata.{Metadata}
use xpn.Client.Rw.{max_file, ebadf}
use xpn.Client.Files.{
  Handle, Desc, Files, at, free_slot, new_desc, search_slot_file, add_link, dup, dup2, close_desc,
  close, close_handles,
}
use xpn.Client.Files.Counted.{
  IsCounted, count_entry, append-IsCounted, link-IsCounted, free-IsCounted,
}

pub set_same :
    {A : Type 0} (xs : List A) (i : ℕ) (x : A) → get_elem? xs i ≡ some x → set xs i x ≡ xs
set_same [] i x h = refl
set_same (y ∷ xs) zero x h = ap (λ z. z ∷ xs) (sym (some_injective h))
set_same (y ∷ xs) (suc i) x h = ap (λ zs. y ∷ zs) (set_same xs i x h)

module _ {S : Type 0} where
  -- The table has all its entries, and the links are counted.
  pub record IsTable (w : Files S) : Type 0 where
    pub full_size : length w.table ≡ max_file
    pub counted : IsCounted w.heap w.table

  -- There is a free entry, and the search for one finds it.
  abbrev pub HasFree : Files S → Type 0
  HasFree w = get_elem? w.table (free_slot w.table 0) ≡ some none

  -- The entry is free, or its description has no other one.
  abbrev pub IsOnly : Files S → ℤ → Type 0
  IsOnly w fd =
      (i a : ℕ) (d : Desc)
      → fd ≡ pos i
      → get_elem? w.table i ≡ some (some a)
      → at w.heap a ≡ some d
      → d.links ≡ pos 1

  entry-live :
      (w : Files S) (i a : ℕ)
      → IsTable w
      → get_elem? w.table i ≡ some (some a)
      → (d : Desc) × (at w.heap a ≡ some d)
  entry-live w i a h there = elim (Option-cases (at w.heap a)) [
    | inl freed ↦ absurd (omega (arith, h.counted.dead a freed, count_entry a w.table i there))
    | inr live ↦ live
  ]

  entry-cases :
      (w : Files S) (n : ℕ)
      → IsTable w
      → ltb 1023 n ≡ false
      → (get_elem? w.table n ≡ some none) ⊎ ((a : ℕ) × (get_elem? w.table n ≡ some (some a)))
  entry-cases w n h small =
      let bound : n < length w.table = ground (arith, h.full_size) in
      let (e, there) = get_elem?_total w.table n bound in
      elim (Option-cases e) [
        | inl z ↦ inl (there ∙ ap some z)
        | inr (a, z) ↦ inr (a, there ∙ ap some z)
      ]

  -- What a call comes to.
  abbrev pub Fine : Option (Files S × ℤ) → Type 0
  Fine o = (w' : Files S) × (r : ℤ) × (o ≡ some (w', r)) × IsTable w'

  add_link-IsTable :
      (w : Files S) (i a : ℕ) (d : Desc)
      → IsTable w
      → get_elem? w.table i ≡ some none
      → at w.heap a ≡ some d
      → IsTable (add_link w i a d)
  add_link-IsTable w i a d h free live = record {
    full_size = length-set w.table i (some a) ∙ h.full_size;
    counted =
        link-IsCounted w.heap w.table i h.counted a d (record d { links = d.links +ℤ pos 1 }) free
          live refl;
  }

  pub dup-IsTable : (w : Files S) (fd : ℤ) → IsTable w → HasFree w → Fine (dup fd w)
  unfolding dup
  dup-IsTable w (negsuc n) h free = (w, negsuc 0, refl, h)
  dup-IsTable w (pos n) h free = elim (Bool-cases (ltb 1023 n)) [
    | inl big ↦ (w, negsuc 0, rw big refl, h)
    | inr small ↦ elim (entry-cases w n h small) [
      | inl there ↦ (w, negsuc 0, rw (small, ltb-zero n, there) refl, h)
      | inr (a, there) ↦
          let i : ℕ = free_slot w.table 0 in
          let bound : i < length w.table = get_elem?_bound w.table i none free in
          let (d, live) = entry-live w n a h there in
          (
            add_link w i a d,
            pos i,
            rw
                (
                  small,
                  ltb-zero n,
                  there,
                  (let b : (i == 1024) ≡ false = ground (arith, h.full_size) in b),
                  live,
                )
                refl,
            add_link-IsTable w i a d h free live,
          )
    ]
  ]

  pub dup2-IsTable : (w : Files S) (fd fd2 : ℤ) → IsTable w → Fine (dup2 fd fd2 w)
  unfolding dup2
  dup2-IsTable w (negsuc n) fd2 h = (w, negsuc 0, refl, h)
  dup2-IsTable w (pos n) (negsuc m) h = elim (Bool-cases (ltb 1023 n)) [
    | inl big ↦ (w, negsuc 0, rw big refl, h)
    | inr small ↦ (w, negsuc 0, rw (small, ltb-zero n) refl, h)
  ]
  dup2-IsTable w (pos n) (pos m) h = elim (Bool-cases (ltb 1023 n)) [
    | inl big ↦ (w, negsuc 0, rw big refl, h)
    | inr small ↦ elim (Bool-cases (ltb 1023 m)) [
      | inl big2 ↦ (w, negsuc 0, rw (small, ltb-zero n, big2) refl, h)
      | inr small2 ↦ elim (entry-cases w n h small) [
        | inl there ↦ (w, negsuc 0, rw (small, ltb-zero n, small2, ltb-zero m, there) refl, h)
        | inr (a, there) ↦ both m small2 a there small
      ]
    ]
  ]
    where
      both :
          (k : ℕ)
          → ltb 1023 k ≡ false
          → (a : ℕ) → get_elem? w.table n ≡ some (some a)
          → ltb 1023 n ≡ false
          → Fine (dup2 (pos n) (pos k) w)
      both k small2 a there small = elim (entry-cases w k h small2) [
        | inr (b, there2) ↦
            (w, negsuc 0, rw (small, ltb-zero n, small2, ltb-zero k, there, there2) refl, h)
        | inl there2 ↦
            let (d, live) = entry-live w n a h there in
            (
              add_link w k a d,
              pos 0,
              rw (small, ltb-zero n, small2, ltb-zero k, there, there2, live) refl,
              add_link-IsTable w k a d h there2 live,
            )
      ]

  pub close-IsTable :
      (nfi_close : Handle → S → S) (w : Files S) (fd : ℤ)
      → IsTable w
      → IsOnly w fd
      → Fine (close nfi_close fd w)
  unfolding close close_desc
  close-IsTable nfi_close w (negsuc n) h only = (
    record w { errno = some ebadf },
    negsuc 0,
    refl,
    record { full_size = h.full_size; counted = h.counted },
  )
  close-IsTable nfi_close w (pos n) h only = elim (Bool-cases (ltb 1023 n)) [
    | inl big ↦ (
      record w { errno = some ebadf },
      negsuc 0,
      rw big refl,
      record { full_size = h.full_size; counted = h.counted },
    )
    | inr small ↦ elim (entry-cases w n h small) [
      | inl there ↦ (
        record w { errno = some ebadf },
        negsuc 0,
        rw (small, ltb-zero n, there) refl,
        record { full_size = h.full_size; counted = h.counted },
      )
      | inr (a, there) ↦
          let (d, live) = entry-live w n a h there in
          let last : d.links ≡ pos 1 = only n a d refl there live in
          (
            record w {
              os = close_handles nfi_close d.data_vfh w.os;
              heap = set w.heap a none;
              table = set w.table n none;
            },
            pos 0,
            rw
                (
                  small,
                  ltb-zero n,
                  there,
                  live,
                  (let z : eq_ℤ (d.links -ℤ pos 1) (pos 0) ≡ true =
                        ap (λ k. eq_ℤ (k -ℤ pos 1) (pos 0)) last in
                      z),
                )
                refl,
            record {
              full_size = length-set w.table n none ∙ h.full_size;
              counted = free-IsCounted w.heap w.table n h.counted a d there live last;
            },
          )
    ]
  ]

  pub search_slot_file-IsTable :
      (memory : Bool) (pd block_size : ℕ) (path : List ℕ) (vfh : List (Option Handle))
      (mdata : Metadata) (flags mode : ℕ) (w : Files S)
      → IsTable w
      → HasFree w
      → IsTable (search_slot_file memory pd block_size path vfh mdata flags mode w).0
  unfolding search_slot_file new_desc
  search_slot_file-IsTable memory pd block_size path vfh mdata flags mode w h free =
      let i : ℕ = free_slot w.table 0 in
      let bound : i < length w.table = get_elem?_bound w.table i none free in
      let inside : (i == 1024) ≡ false = ground (arith, h.full_size) in
      elim (Bool-cases memory) [
        | inl found ↦
            rw (inside, found)
              (record {
                full_size = length-set w.table i (some (length w.heap)) ∙ h.full_size;
                counted =
                    append-IsCounted w.heap w.table i h.counted
                      (new_desc i pd block_size path vfh mdata flags mode) free refl;
              })
        | inr missing ↦
            rw (inside, missing)
              (record {
                full_size = length-set w.table i none ∙ h.full_size;
                counted = rw (set_same w.table i none free) h.counted;
              })
      ]
