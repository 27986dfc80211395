-- ===== src/Base/Dtable/Lifo.antt =====
-- The free list of a table of descriptors, and what insertion and deletion do to it.
use xpn.Prelude.{
  some_injective, get_elem?_bound, get_elem?-append_old, get_elem?-append_before,
  get_elem?-append_end, ℕ, zero, suc, ◌+◌, ◌<◌, ◌≡◌, ◌≢◌, refl, sym, ap, ◌∙◌, true, false, some,
  List, [], ◌∷◌, ◌++◌, arith, ◌⊎◌, inl, inr, ℕ_discrete, get_elem?_total, length, length-append,
  get_elem?, set, length-set, get_elem?-set_self, get_elem?-set_ne, ◌==◌, leb,
}
use xpn.Prelude.Int.{ℤ, pos, negsuc, eq_ℤ}
use xpn.Base.Dtable.{Dtelto, Dtable, elto_at, put_elto, alloc_elto, reuse_elto, insert, delete, get}

-- No descriptor of the list is this one.
abbrev pub Fresh : ℕ → List ℕ → Type 0
Fresh i [] = Unit
Fresh i (j ∷ js) = (i ≢ j) × Fresh i js

-- The free list, from this head on, runs through these descriptors, each once.
abbrev pub Free : List Dtelto → ℤ → List ℕ → Type 0
Free es head [] = head ≡ negsuc 0
Free es head (i ∷ is) =
    (head ≡ pos i)
    × ((e : Dtelto) × (get_elem? es i ≡ some e) × Free es e.next_free is)
    × Fresh i is

-- Each element knows its place.
abbrev pub Numbered : List Dtelto → Type 0
Numbered es = (i : ℕ) (e : Dtelto) → get_elem? es i ≡ some e → e.myself ≡ pos i

-- A table whose free descriptors are these.
pub record IsTable (dt : Dtable) (free : List ℕ) : Type 0 where
  pub counted : dt.neltos ≡ length dt.dtable
  pub numbered : Numbered dt.dtable
  pub chain : Free dt.dtable dt.free_list free

Free-set :
    (es : List Dtelto) (i : ℕ) (e : Dtelto) (head : ℤ) (is : List ℕ)
    → Fresh i is
    → Free es head is
    → Free (set es i e) head is
Free-set es i e head [] f h = h
Free-set es i e head (j ∷ is) (ne, f) (hd, (e', at, rest), fr) =
    (hd, (e', get_elem?-set_ne es e ne ∙ at, Free-set es i e e'.next_free is f rest), fr)

Free-append :
    (es fs : List Dtelto) (head : ℤ) (is : List ℕ) → Free es head is → Free (es ++ fs) head is
Free-append es fs head [] h = h
Free-append es fs head (j ∷ is) (hd, (e, at, rest), fr) =
    (hd, (e, get_elem?-append_old es fs j e at, Free-append es fs e.next_free is rest), fr)

get-at :
    (dt : Dtable) (i : ℕ) (e : Dtelto)
    → i < dt.neltos
    → get_elem? dt.dtable i ≡ some e
    → get dt (pos i) ≡ some e.dt_info
unfolding get elto_at
get-at dt i e h at = rw ((let t : leb dt.neltos i ≡ false = ground arith in t), at)

-- What a change to one element leaves of the others.
get-get :
    (dt dt' : Dtable) (j : ℕ)
    → j < dt.neltos
    → j < dt'.neltos
    → get_elem? dt'.dtable j ≡ get_elem? dt.dtable j
    → get dt' (pos j) ≡ get dt (pos j)
unfolding get elto_at
get-get dt dt' j h h' at = rw (
  (let t : leb dt.neltos j ≡ false = ground arith in t),
  (let t : leb dt'.neltos j ≡ false = ground arith in t),
  at,
)

Numbered-set :
    (es : List Dtelto) (i : ℕ) (e : Dtelto)
    → i < length es
    → e.myself ≡ pos i
    → Numbered es
    → Numbered (set es i e)
Numbered-set es i e h m num j e' at = elim (ℕ_discrete i j) [
  | yes same ↦
      let here : e ≡ e' =
        some_injective
          (sym (get_elem?-set_self es i e h) ∙ ap (get_elem? (set es i e)) same ∙ at) in
      ap (λ d. d.myself) (sym here) ∙ m ∙ ap pos same
  | no other ↦ num j e' (sym (get_elem?-set_ne es e other) ∙ at)
]

get_elem?-append_last :
    (es : List Dtelto) (e : Dtelto) (i : ℕ) (e' : Dtelto)
    → get_elem? (es ++ e ∷ []) i ≡ some e'
    → (get_elem? es i ≡ some e') ⊎ ((i ≡ length es) × (e ≡ e'))
get_elem?-append_last [] e zero e' at = inr (refl, some_injective at)
get_elem?-append_last [] e (suc i) e' at = inl at
get_elem?-append_last (x ∷ es) e zero e' at = inl at
get_elem?-append_last (x ∷ es) e (suc i) e' at = elim (get_elem?-append_last es e i e' at) [
  | inl old ↦ inl old
  | inr (there, same) ↦ inr (ap suc there, same)
]

Numbered-append :
    (es : List Dtelto) (e : Dtelto)
    → e.myself ≡ pos (length es)
    → Numbered es
    → Numbered (es ++ e ∷ [])
Numbered-append es e m num i e' at = elim (get_elem?-append_last es e i e' at) [
  | inl old ↦ num i e' old
  | inr (there, same) ↦ ap (λ d. d.myself) (sym same) ∙ m ∙ ap pos (sym there)
]

-- The descriptor that an insertion gives out, and the free ones that it leaves.
abbrev pub next_fd : Dtable → List ℕ → ℕ
next_fd dt [] = dt.neltos
next_fd dt (i ∷ is) = i

abbrev pub others : List ℕ → List ℕ
others [] = []
others (i ∷ is) = is

-- What an insertion that returns `fd` leaves behind.
pub record Inserted (dt dt' : Dtable) (info fd : ℕ) (free : List ℕ) : Type 0 where
  pub kept : IsTable dt' free
  pub stored : get dt' (pos fd) ≡ some info
  pub unchanged : (j : ℕ) → j < dt.neltos → j ≢ fd → get dt' (pos j) ≡ get dt (pos j)
  pub taken : Fresh fd free

alloc-Inserted :
    (dt : Dtable) (info : ℕ)
    → IsTable dt []
    → (dt' : Dtable) × (alloc_elto true true dt info ≡ (dt', pos dt.neltos))
      × Inserted dt dt' info dt.neltos []
unfolding alloc_elto
alloc-Inserted dt info h =
    let e : Dtelto = record { dt_info = info; next_free = negsuc 0; myself = pos dt.neltos } in
    let dt' : Dtable = record dt { dtable = dt.dtable ++ e ∷ []; neltos = dt.neltos + 1 } in
    (
      dt',
      refl,
      record {
        kept = record {
          counted = omega (arith, h.counted, length-append dt.dtable (e ∷ []));
          numbered = Numbered-append dt.dtable e (ap pos h.counted) h.numbered;
          chain = h.chain;
        };
        stored =
            get-at dt' dt.neltos e (omega arith)
              (get_elem?-append_end dt.dtable e [] dt.neltos h.counted);
        unchanged = λ j hj ne.
            get-get dt dt' j hj (omega arith)
              (get_elem?-append_before dt.dtable (e ∷ []) j (omega (arith, h.counted)));
        taken = tt;
      },
    )

reuse-Inserted :
    (dt : Dtable) (info i : ℕ) (is : List ℕ)
    → IsTable dt (i ∷ is)
    → (dt' : Dtable) × (reuse_elto dt info ≡ some (dt', pos i)) × Inserted dt dt' info i is
unfolding reuse_elto elto_at put_elto
reuse-Inserted dt info i is h =
    let (head, (e, at, rest), fresh) = h.chain in
    let e1 : Dtelto = record e { dt_info = info; next_free = negsuc 0 } in
    let dt' : Dtable = record dt { dtable = set dt.dtable i e1; free_list = e.next_free } in
    let bound = get_elem?_bound dt.dtable i e at in
    let mine = h.numbered i e at in
    (
      dt',
      rw (head, at, mine),
      record {
        kept = record {
          counted = h.counted ∙ sym (length-set dt.dtable i e1);
          numbered = Numbered-set dt.dtable i e1 bound mine h.numbered;
          chain = Free-set dt.dtable i e1 e.next_free is fresh rest;
        };
        stored =
            get-at dt' i e1 (omega (arith, h.counted)) (get_elem?-set_self dt.dtable i e1 bound);
        unchanged = λ j hj ne.
            get-get dt dt' j hj hj (get_elem?-set_ne dt.dtable e1 (λ same. ne (sym same)));
        taken = fresh;
      },
    )

-- `dtable_insert`, where memory is found and `dt_info` is not NULL, gives out the descriptor that
-- was freed last, or else the next new one. The descriptor is not free afterwards and holds
-- `dt_info`, the other descriptors hold what they held, and the table is well formed again.
pub insert-Inserted :
    (dt : Dtable) (free : List ℕ) (info : ℕ)
    → IsTable dt free
    → info ≢ 0
    → (dt' : Dtable) × (insert true true dt info ≡ some (dt', pos (next_fd dt free)))
      × Inserted dt dt' info (next_fd dt free) (others free)
unfolding insert
insert-Inserted dt [] info h ne =
    let (dt', e, ok) = alloc-Inserted dt info h in
    (
      dt',
      rw (
        (let t : (info == 0) ≡ false = ground arith in t),
        (let t : eq_ℤ dt.free_list (negsuc 0) ≡ true = ap (λ x. eq_ℤ x (negsuc 0)) h.chain in t),
        e,
      ),
      ok,
    )
insert-Inserted dt (i ∷ is) info h ne =
    let (dt', e, ok) = reuse-Inserted dt info i is h in
    (
      dt',
      rw
          (
            (let t : (info == 0) ≡ false = ground arith in t),
            (let t : eq_ℤ dt.free_list (negsuc 0) ≡ false = ap (λ x. eq_ℤ x (negsuc 0)) h.chain.0 in
                t),
          )
          e,
      ok,
    )

-- `dtable_delete` of a descriptor that is in the table and not free makes it the first free one,
-- and the table is well formed again.
pub delete-IsTable :
    (dt : Dtable) (free : List ℕ) (fd : ℕ)
    → IsTable dt free
    → fd < dt.neltos
    → Fresh fd free
    → (dt' : Dtable) × (delete dt (pos fd) ≡ some (dt', pos 1)) × IsTable dt' (fd ∷ free)
unfolding delete elto_at put_elto
delete-IsTable dt free fd h bound fresh =
    let (e, at) = get_elem?_total dt.dtable fd (omega (arith, h.counted)) in
    let e1 : Dtelto = record e { next_free = dt.free_list } in
    let dt' : Dtable = record dt { dtable = set dt.dtable fd e1; free_list = pos fd } in
    let here : fd < length dt.dtable = omega (arith, h.counted) in
    let mine = h.numbered fd e at in
    (
      dt',
      rw ((let t : leb dt.neltos fd ≡ false = ground arith in t), at, mine),
      record {
        counted = h.counted ∙ sym (length-set dt.dtable fd e1);
        numbered = Numbered-set dt.dtable fd e1 here mine h.numbered;
        chain = (
          refl,
          (
            e1,
            get_elem?-set_self dt.dtable fd e1 here,
            Free-set dt.dtable fd e1 dt.free_list free fresh h.chain,
          ),
          fresh,
        );
      },
    )
