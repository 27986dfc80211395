-- ===== src/Bypass/Fds/Taken.antt =====
-- The table of virtual descriptors keeps its free entries behind `fdstable_first_free`.
use xpn.Prelude.{
  some_injective, get_elem?-drop, get_elem?_bound, get_elem?-append_before, ℕ, zero, suc, ◌+◌, ◌-◌,
  ◌≤◌, ◌<◌, ◌≡◌, ◌≢◌, ◌⊎◌, inl, inr, refl, sym, ap, ◌∙◌, true, false, none, some, List, [], ◌∷◌,
  ◌++◌, arith, ltb, get_elem?, get_elem?_total, get_elem?-set_self, get_elem?-set_ne, set, length,
  length-set, length-append, length-drop, get_elem?-append_replicate, replicate, length-replicate,
  drop, Bool-cases, ℕ_discrete, ltb→lt,
}
use xpn.Bypass.{Sys, GenericFd}
use xpn.Bypass.Fds.{
  is_free, free_fd, fdstable_grown, find_free, fdstable_realloc, fdstable_take, fdstable_release,
  take_found,
}

-- No entry before this one is free.
abbrev pub UsedBelow : List GenericFd → ℕ → Type 0
UsedBelow table n = (i : ℕ) (v : GenericFd) → i < n → get_elem? table i ≡ some v → is_free v ≡ false

-- What the search finds in a table: nothing, and no entry is free, or the first one that is.
pub record Found (table : List GenericFd) (m : ℕ) : Type 0 where
  pub entry : GenericFd
  pub there : get_elem? table m ≡ some entry
  pub free : is_free entry ≡ true
  pub first : UsedBelow table m

find_free-cases :
    (table : List GenericFd) (k : ℕ)
    → ((find_free table k ≡ none) × UsedBelow table (length table))
      ⊎ ((m : ℕ) × (find_free table k ≡ some (k + m)) × Found table m)
unfolding find_free
find_free-cases [] k = inl (refl, λ i v h at. absurd (omega arith))
find_free-cases (v ∷ table) k = elim (Bool-cases (is_free v)) [
  | inl free ↦ inr (
    0,
    rw free (ap some (omega arith)),
    record { entry = v; there = refl; free = free; first = λ i u h at. absurd (omega arith) },
  )
  | inr used ↦
      let extended : (n : ℕ) → UsedBelow table n → UsedBelow (v ∷ table) (suc n) =
        UsedBelow-cons v table used in
      elim (find_free-cases table (k + 1)) [
        | inl (e, all) ↦ inl (rw (used, e), extended (length table) all)
        | inr (m, e, found) ↦ inr (
          suc m,
          rw (used, e) (ap some (omega arith)),
          record {
            entry = found.entry;
            there = found.there;
            free = found.free;
            first = extended m found.first;
          },
        )
      ]
]
  where
    UsedBelow-cons :
        (u : GenericFd) (rest : List GenericFd)
        → is_free u ≡ false
        → (n : ℕ) → UsedBelow rest n
        → UsedBelow (u ∷ rest) (suc n)
    UsedBelow-cons u rest used n h zero v lt at = ap is_free (sym (some_injective at)) ∙ used
    UsedBelow-cons u rest used n h (suc i) v lt at = h i v (omega arith) at

-- The table, and where its search for a free entry begins.
pub record IsTable (table : List GenericFd) (first : ℕ) : Type 0 where
  pub inside : first ≤ length table
  pub used : UsedBelow table first

-- What a change of one entry leaves of the others.
pub record Changed (table table' : List GenericFd) (i : ℕ) (v : GenericFd) : Type 0 where
  pub stored : get_elem? table' i ≡ some v
  pub others : (j : ℕ) → j < length table → j ≢ i → get_elem? table' j ≡ get_elem? table j

UsedBelow-set :
    (table : List GenericFd) (n i : ℕ) (v : GenericFd)
    → is_free v ≡ false
    → UsedBelow table n
    → UsedBelow (set table i v) n
UsedBelow-set table n i v used h j u lt at = elim (ℕ_discrete i j) [
  | yes same ↦
      let bound : i < length table =
        omega (arith, same, length-set table i v, get_elem?_bound (set table i v) j u at) in
      ap is_free (
        sym (
          some_injective
            (sym (get_elem?-set_self table i v bound) ∙ ap (get_elem? (set table i v)) same ∙ at)))
      ∙ used
  | no other ↦ h j u lt (sym (get_elem?-set_ne table v other) ∙ at)
]

set-Changed :
    (table : List GenericFd) (i : ℕ) (v : GenericFd)
    → i < length table
    → Changed table (set table i v) i v
set-Changed table i v h = record {
  stored = get_elem?-set_self table i v h;
  others = λ j lt ne. get_elem?-set_ne table v (λ same. ne (sym same));
}

UsedBelow-next :
    (table : List GenericFd) (i : ℕ) (v : GenericFd)
    → i < length table
    → is_free v ≡ false
    → UsedBelow table i
    → UsedBelow (set table i v) (i + 1)
UsedBelow-next table i v bound used h j u lt at = elim (ℕ_discrete j i) [
  | yes same ↦
      ap is_free (
        sym (
          some_injective (
            sym (get_elem?-set_self table i v bound)
            ∙ ap (get_elem? (set table i v)) (sym same)
            ∙ at)))
      ∙ used
  | no other ↦ UsedBelow-set table i i v used h j u (omega arith) at
]

UsedBelow-drop :
    (table : List GenericFd) (first m : ℕ)
    → UsedBelow table first
    → UsedBelow (drop first table) m
    → UsedBelow table (first + m)
UsedBelow-drop table first m below behind j u lt at = elim (Bool-cases (ltb j first)) [
  | inl early ↦ below j u (ltb→lt j first early) at
  | inr late ↦ behind (j - first) u (ground arith) (
      get_elem?-drop table first (j - first)
      ∙ ap (get_elem? table) (let e : first + (j - first) ≡ j = ground arith in e)
      ∙ at)
]

-- Where the entry is: in the table, which keeps its length, or it is the first one behind it, and the
-- table has twice its length and is free behind the entry.
pub data Place (table table' : List GenericFd) (i : ℕ) : Type 0 where
  in_table : i < length table → length table' ≡ length table → Place table table' i
  behind_table :
      i ≡ length table
      → length table' ≡ length table + length table
      → ((j : ℕ) → i < j → j < length table' → get_elem? table' j ≡ some free_fd)
      → Place table table' i

-- An entry of the table is taken: it was free if it was there, and no entry before it is free.
pub record Taken {S : Type 0} (w' : Sys S) (table : List GenericFd) (i : ℕ) (v : GenericFd)
    : Type 0 where
  pub table' : List GenericFd
  pub kept : w'.fdstable ≡ some table'
  pub valid : IsTable table' w'.fdstable_first_free
  pub changed : Changed table table' i v
  pub place : Place table table' i
  pub was_free : (e : GenericFd) → get_elem? table i ≡ some e → is_free e ≡ true
  pub lowest : UsedBelow table i

-- The entries that a table grows by are free.
get_elem?_behind :
    (table : List GenericFd) (n j : ℕ)
    → length table ≤ j
    → j < length table + n
    → get_elem? (table ++ replicate n free_fd) j ≡ some free_fd
get_elem?_behind [] n j le lt = get_elem?-replicate n j (omega arith)
  where
    get_elem?-replicate : (n j : ℕ) → j < n → get_elem? (replicate n free_fd) j ≡ some free_fd
    get_elem?-replicate zero j lt = absurd (omega arith)
    get_elem?-replicate (suc n) zero lt = refl
    get_elem?-replicate (suc n) (suc j) lt = get_elem?-replicate n j (omega arith)
get_elem?_behind (v ∷ table) n zero le lt = absurd (omega arith)
get_elem?_behind (v ∷ table) n (suc j) le lt =
    get_elem?_behind table n j (omega arith) (omega arith)

module _ {S : Type 0} (w : Sys S) (table : List GenericFd) (v : GenericFd) where
  found-Taken :
      (i : ℕ) (e : GenericFd)
      → is_free v ≡ false
      → get_elem? table i ≡ some e
      → is_free e ≡ true
      → UsedBelow table i
      → Taken (record w { fdstable = some (set table i v); fdstable_first_free = i + 1 }) table i v
  found-Taken i e used there free below =
      let bound : i < length table = get_elem?_bound table i e there in
      record {
        table' = set table i v;
        kept = refl;
        valid = record {
          inside = omega (arith, length-set table i v);
          used = UsedBelow-next table i v bound used below;
        };
        changed = set-Changed table i v bound;
        place = in_table bound (length-set table i v);
        was_free = λ u at. ap is_free (some_injective (sym at ∙ there)) ∙ free;
        lowest = below;
      }

  grown-Taken :
      is_free v ≡ false
      → IsTable table w.fdstable_first_free
      → UsedBelow table (length table)
      → 0 < length table
      → Taken
          (record w {
            fdstable = some (set (table ++ replicate (length table) free_fd) (length table) v);
          })
          table
          (length table)
          v
  grown-Taken used h full some_entry =
      let more : List GenericFd = replicate (length table) free_fd in
      let n : ℕ = length table in
      let size : length (table ++ more) ≡ n + n =
        length-append table more ∙ ap (λ k. n + k) (length-replicate n free_fd) in
      let old : (j : ℕ) → j < n → get_elem? (set (table ++ more) n v) j ≡ get_elem? table j =
        λ j lt.
          get_elem?-set_ne (table ++ more) v (omega arith)
          ∙ get_elem?-append_before table more j lt in
      record {
        table' = set (table ++ more) n v;
        kept = refl;
        valid = record {
          inside = omega (arith, length-set (table ++ more) n v, size, h.inside);
          used = λ j u lt at. h.used j u lt (sym (old j (omega (arith, h.inside))) ∙ at);
        };
        changed = record {
          stored = get_elem?-set_self (table ++ more) n v (omega (arith, size));
          others = λ j lt ne. old j lt;
        };
        place = behind_table refl (length-set (table ++ more) n v ∙ size) (λ j after lt.
            get_elem?-set_ne (table ++ more) v (omega arith)
            ∙ get_elem?_behind table n j (omega arith)
                (omega (arith, lt, length-set (table ++ more) n v, size)));
        was_free = λ u at. absurd (omega (arith, get_elem?_bound table n u at));
        lowest = full;
      }

  -- On a valid table of one entry or more, `fdstable_put` finds an entry for an open file: the first
  -- free entry of the table, whose length stays, or the first one behind a full table, which grows to
  -- twice its length with free entries. The file is stored there, no other entry changes, and the
  -- table stays valid.
  pub fdstable_take-IsTable :
      0 < length table
      → is_free v ≡ false
      → IsTable table w.fdstable_first_free
      → (w' : Sys S) × (i : ℕ) × (fdstable_take (record w { fdstable = some table }) v
          ≡ some (w', some i))
        × Taken w' table i v
  unfolding fdstable_take take_found fdstable_realloc fdstable_grown
  fdstable_take-IsTable some_entry used h =
      let first : ℕ = w.fdstable_first_free in
      elim (find_free-cases (drop first table) first) [
        | inl (e, all) ↦
            let full : UsedBelow table (length table) = λ j u lt at.
              UsedBelow-drop table first (length (drop first table)) h.used all j u
                (omega (arith, h.inside, length-drop first table)) at in
            (
              record w {
                fdstable = some (set (table ++ replicate (length table) free_fd) (length table) v);
              },
              length table,
              rw (e, get_elem?-append_replicate table (length table) free_fd some_entry),
              grown-Taken used h full some_entry,
            )
        | inr (m, e, found) ↦ (
          record w {
            fdstable = some (set table (first + m) v);
            fdstable_first_free = first + m + 1;
          },
          first + m,
          rw e,
          found-Taken (first + m) found.entry used
              (sym (get_elem?-drop table first m) ∙ found.there) found.free
              (UsedBelow-drop table first m h.used found.first),
        )
      ]

  -- `fdstable_remove` frees the entry, changes no other one, and the search for a free entry begins
  -- at or before it.
  pub fdstable_release-IsTable :
      (i : ℕ)
      → i < length table
      → IsTable table w.fdstable_first_free
      → (w' : Sys S) × (fdstable_release (record w { fdstable = some table }) i ≡ some w')
        × (w'.fdstable ≡ some (set table i free_fd))
        × IsTable (set table i free_fd) w'.fdstable_first_free
        × (w'.fdstable_first_free ≤ i)
        × Changed table (set table i free_fd) i free_fd
  unfolding fdstable_release
  fdstable_release-IsTable i bound h =
      let (e, at) = get_elem?_total table i bound in
      let at_first : (first' : ℕ)
          → first' ≤ i
          → first' ≤ w.fdstable_first_free
          → IsTable (set table i free_fd) first' =
        λ first' le before. record {
          inside = omega (arith, length-set table i free_fd, h.inside);
          used = λ j u lt there.
              h.used j u (omega arith) (sym (get_elem?-set_ne table free_fd (omega arith)) ∙ there);
        } in
      elim (Bool-cases (ltb i w.fdstable_first_free)) [
        | inl before ↦ (
          record w { fdstable = some (set table i free_fd); fdstable_first_free = i },
          rw (at, before),
          refl,
          at_first i (omega arith) (ground arith),
          omega arith,
          set-Changed table i free_fd bound,
        )
        | inr behind ↦ (
          record w { fdstable = some (set table i free_fd) },
          rw (at, behind),
          refl,
          at_first w.fdstable_first_free (ground arith) (omega arith),
          ground arith,
          set-Changed table i free_fd bound,
        )
      ]
