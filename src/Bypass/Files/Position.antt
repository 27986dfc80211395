-- ===== src/Bypass/Files/Position.antt =====
-- The position of a file of Expand after `pread` and `pwrite` of src/bypass/xpn_bypass.c, over
-- `xpn_simple_lseek` of src/xpn_client/xpn/xpn_simple/xpncore/xpn_rw.c.
use xpn.Prelude.{
  arith, ℕ, zero, suc, ◌+◌, ◌-◌, ◌^◌, ◌<◌, ◌≡◌, sym, ap, ◌∙◌, some, Option, false, true, ltb, leb,
}
use xpn.Prelude.Int.{ℤ, pos, neg, ◌+ℤ◌}
use xpn.Client.Rw.{Filedesc}
use xpn.Client.Rw as Rw
use xpn.Client.Rw.Seek.{to_int_small}
use xpn.Bypass.{Env, Sys, Xpn}
use xpn.Bypass.Files.{transfer_at, seek_set, seek_cur}

-- The Expand that is called is one whose `xpn_lseek` on this descriptor is `xpn_simple_lseek` on the
-- file's entry of the table, `desc`, and whose transfer moves the offset there by what it transferred.
pub record IsExpand {S : Type 0} (env : Env S) (fd : ℤ) (transfer : Xpn) (desc : S → Filedesc)
    (st_size : S → Option ℤ) : Type 0 where
  pub set :
      (o : ℤ) (s : S)
      → (s' : S) × (env.xpn (Xpn.lseek fd o seek_set) s
          ≡ (s', (Rw.lseek (st_size s) (desc s) o Rw.seek_set).0))
        × (desc s' ≡ (Rw.lseek (st_size s) (desc s) o Rw.seek_set).2)
  pub move :
      (o : ℤ) (s : S)
      → (s' : S) × (env.xpn (Xpn.lseek fd o seek_cur) s
          ≡ (s', (Rw.lseek (st_size s) (desc s) o Rw.seek_cur).0))
        × (desc s' ≡ (Rw.lseek (st_size s) (desc s) o Rw.seek_cur).2)
  pub moved :
      (s s' : S) (k : ℕ)
      → env.xpn transfer s ≡ (s', pos k)
      → (desc s').offset ≡ (desc s).offset +ℤ pos k

set_there :
    (st_size : Option ℤ) (d : Filedesc) (o : ℕ)
    → o < 2 ^ 31
    → ((Rw.lseek st_size d (pos o) Rw.seek_set).0 ≡ pos o)
      × ((Rw.lseek st_size d (pos o) Rw.seek_set).2.offset ≡ pos o)
unfolding Rw.lseek
set_there st_size d o small =
    let e : ltb o 0 ≡ false = ground arith in (rw e (to_int_small o small), rw e)

add_neg : (o k : ℕ) → pos (o + k) +ℤ neg k ≡ pos o
add_neg o zero = ap pos (omega arith)
add_neg o (suc k) =
    rw
      (
        (let e : leb (suc k) 0 ≡ false = ground arith in e),
        (let e : suc k - 0 - 1 ≡ k = omega arith in e),
        (let e : leb (suc k) (o + suc k) ≡ true = ground arith in e),
      )
      (ap pos (omega arith))

moved_back :
    (st_size : Option ℤ) (d : Filedesc) (o k : ℕ)
    → d.offset ≡ pos (o + k)
    → (Rw.lseek st_size d (neg k) Rw.seek_cur).2.offset ≡ pos o
unfolding Rw.lseek
moved_back st_size d o k e = rw (e, add_neg o k, (let t : ltb o 0 ≡ false = ground arith in t))

-- Where `xpn_lseek` is `xpn_simple_lseek`, and a transfer moves the offset of the file by the bytes that
-- it transferred, a transfer at an offset below 2 GiB that succeeds, as `pread` and `pwrite` make it,
-- gives the number of bytes, and leaves the file at that offset, wherever it was before.
pub transfer_at-position :
    {S : Type 0} (env : Env S) (fd : ℤ) (transfer : Xpn) (desc : S → Filedesc)
    (st_size : S → Option ℤ) (o k : ℕ) (w : Sys S) (s : S)
    → IsExpand env fd transfer desc st_size
    → o < 2 ^ 31
    → env.xpn transfer (env.xpn (Xpn.lseek fd (pos o) seek_set) w.os).0 ≡ (s, pos k)
    → (w' : Sys S) × (transfer_at env fd (pos o) transfer w ≡ some (w', pos k))
      × ((desc w'.os).offset ≡ pos o)
unfolding transfer_at
transfer_at-position env fd transfer desc st_size o k w s h small done =
    let (s1, sought, at) = h.set (pos o) w.os in
    let (r, there) = set_there (st_size w.os) (desc w.os) o small in
    let done' : env.xpn transfer s1 ≡ (s, pos k) =
      ap (λ p. env.xpn transfer p.0) (sym sought) ∙ done in
    let (s3, back, last) = h.move (neg k) s in
    let behind : (desc s).offset ≡ pos (o + k) =
      h.moved s1 s k done' ∙ ap (λ d. d.offset +ℤ pos k) at ∙ ap (λ i. i +ℤ pos k) there in
    (
      record w { os = s3 },
      rw (sought, r, done', back),
      ap (λ d. d.offset) last ∙ moved_back (st_size s) (desc s) o k behind,
    )
