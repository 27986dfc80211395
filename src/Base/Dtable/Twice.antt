-- ===== src/Base/Dtable/Twice.antt =====
-- A descriptor that is deleted twice.
use xpn.Prelude.{
  ◌>>=◌, ℕ, ◌<◌, ◌≡◌, ◌≢◌, true, false, Option, some, List, arith, ◌==◌, leb, get_elem?_total, set,
  length, length-set, get_elem?-set_self,
}
use xpn.Prelude.Int.{ℤ, pos, negsuc}
use xpn.Base.Dtable.{Dtelto, Dtable, elto_at, put_elto, reuse_elto, insert, delete}
use xpn.Base.Dtable.Lifo.{IsTable}

-- The descriptors that two insertions, one after the other, give out.
abbrev pub insert_both : Dtable → (a b : ℕ) → Option (ℤ × ℤ)
insert_both dt a b =
    insert true true dt a >>= λ (dt1, r1). insert true true dt1 b >>= λ (dt2, r2). some (r1, r2)

-- `dtable_delete` accepts a descriptor that is free already; the free list then runs in a circle,
-- and two calls of `dtable_insert` return the same descriptor.
pub insert-delete_twice :
    (dt : Dtable) (free : List ℕ) (fd a b : ℕ)
    → IsTable dt free
    → fd < dt.neltos
    → a ≢ 0
    → b ≢ 0
    → (delete dt (pos fd) >>= λ (d1, r1). delete d1 (pos fd) >>= λ (d2, r2). insert_both d2 a b)
      ≡ some (pos fd, pos fd)
unfolding delete insert reuse_elto elto_at put_elto
insert-delete_twice dt free fd a b h bound a_ok b_ok =
    let (e, at) = get_elem?_total dt.dtable fd (omega (arith, h.counted)) in
    let known : (info : ℕ) (next : ℤ) → Dtelto =
      λ info next. record { dt_info = info; next_free = next; myself = pos fd } in
    let here : fd < length dt.dtable = omega (arith, h.counted) in
    let v1 = known e.dt_info dt.free_list in
    let es1 = set dt.dtable fd v1 in
    let v2 = known e.dt_info (pos fd) in
    let es2 = set es1 fd v2 in
    let v3 = known a (negsuc 0) in
    rw (
      (let t : leb dt.neltos fd ≡ false = ground arith in t),
      at,
      h.numbered fd e at,
      (let t : leb dt.neltos fd ≡ false = ground arith in t),
      get_elem?-set_self dt.dtable fd v1 here,
      (let t : (a == 0) ≡ false = ground arith in t),
      get_elem?-set_self es1 fd v2 (omega (arith, here, length-set dt.dtable fd v1)),
      (let t : (b == 0) ≡ false = ground arith in t),
      get_elem?-set_self es2 fd v3
          (omega (arith, here, length-set dt.dtable fd v1, length-set es1 fd v2)),
    )
