-- ===== src/Remote/Local.antt =====
-- A file read on the client's own machine, by nfi_local.c, and through a server, by nfi_xpn_server.c.
use xpn.Prelude.{
  ℕ, zero, suc, ◌<◌, ◌≤◌, ◌^◌, ◌≡◌, refl, ap, Bool, false, true, none, some, [], ◌∷◌, ◌++◌, ◌==◌,
  if◌then◌else◌, length, take, drop, take_over, length-take, length-drop, arith, ltb-zero,
}
use xpn.Prelude.Int.{ℤ, pos, negsuc, lt_ℤ, eq_ℤ}
use xpn.Policy.Grouping.{Bytes}
use xpn.Policy.Grouping.Gather.{memcpy-append}
use xpn.Protocol.{path_max}
use xpn.Server.{Host}
use xpn.Server.Transfer.{buffer_size}
use xpn.Server.Transfer.Frames.{Readable}
use xpn.Server.Mdata.{Layout}
use xpn.Server.Dispatch.{Stack}
use xpn.Nfi.{Fhandle, Answer}
use xpn.Nfi.Transfer.{nfi_read}
use xpn.Nfi.Local.{Local, local_fd, local_read}
use xpn.Remote.{idle}
use xpn.Remote.Paths.{IsString}
use xpn.Remote.Calls.{link, known}
use xpn.Remote.Read.{bytes_at}
use xpn.Remote.Read.Whole.{nfi_read-op_read}

-- A file that is read to its end at once: `lseek` succeeds, and a read gives all the bytes that it is
-- asked for and that the file has.
pub record ReadsAll {S : Type 0} (h : Host S) (fd : ℤ) (content : Bytes) (Inv : S → Type 0)
    : Type 0 where
  pub seeks : (s : S) (o : ℕ) → Inv s → (h.lseek s fd o).1 ≡ pos o
  pub reads :
      (s : S) (o n : ℕ)
      → Inv s
      → (s' : S) × (h.read (h.lseek s fd o).0 fd n ≡ (s', some (bytes_at content o n))) × Inv s'

pub take-length-take : (n : ℕ) (xs : Bytes) → take n xs ≡ take (length (take n xs)) xs
take-length-take zero xs = refl
take-length-take (suc n) [] = refl
take-length-take (suc n) (x ∷ xs) = ap (λ t. x ∷ t) (take-length-take n xs)

module _ {S : Type 0} (h : Host S) (fd : ℤ) (content : Bytes) (Inv : S → Type 0) where
  ReadsAll-Readable : ReadsAll h fd content Inv → Readable h fd content Inv
  ReadsAll-Readable law = record {
    seeks = law.seeks;
    reads = λ s o n inv.
        let (s1, got, inv1) = law.reads s o n inv in
        let len : length (bytes_at content o n) ≤ n =
          omega (arith, length-take n (drop o content)) in
        (
          s1,
          bytes_at content o n,
          got,
          inv1,
          record {
            inside = take-length-take n (drop o content);
            at_most = len;
            at_end = λ some_left nothing.
                omega (arith, length-take n (drop o content), length-drop o content);
          },
        );
  }

-- A file of the client's own machine is read with the same result, and the same bytes in the buffer,
-- by the local interface and through a server, for every offset and for sizes of less than 2^31, when
-- its file system reads to the end at once, and under the conditions of a read through a server.
pub local_read-nfi_read :
    {S : Type 0} (k : Local S) (l : Layout) (old : Stack) (is_mq_server : Bytes → Bool)
    (garbage : ℕ) (fh : Fhandle) (content buffer : Bytes) (Inv : S → Type 0) (s s1 t t1 : S)
    (fd : ℤ) (offset size keep file sdir : ℕ)
    → IsString fh.path
    → length fh.path < path_max
    → (if file == 1
        then (k.host.clear_errno s, fh.fd)
        else k.host.open_path (k.host.clear_errno s) fh.path 0)
      ≡ (s1, fd)
    → local_fd k (k.keep_local t) fh 0 ≡ (t1, fd)
    → lt_ℤ fd (pos 0) ≡ false
    → k.host.malloc s1 (buffer_size size) ≡ true
    → eq_ℤ old.req_status_ret (negsuc 0) ≡ false
    → ReadsAll k.host fd content Inv
    → Inv s1
    → Inv t1
    → size < 2 ^ 31
    → size ≤ length buffer
    → (a : Answer) × (b : Bytes) × (s2 t2 : S) × (local_read k t fh buffer offset size
        ≡ some (t2, a, b))
      × (nfi_read
            (link k.host l old k.parse_url is_mq_server)
            garbage
            (known k.host l old k.parse_url is_mq_server (idle k.host l old s) keep file sdir)
            fh
            buffer
            offset
            size
          ≡ some (
            known k.host l old k.parse_url is_mq_server (idle k.host l old s2) keep file sdir,
            a,
            b,
          ))
unfolding local_read
local_read-nfi_read k l old is_mq_server garbage fh content buffer Inv s s1 t t1 fd offset size keep
      file sdir string short eo el ef em er law inv inv' small room =
    let (s2, remote) =
      nfi_read-op_read k.host l old k.parse_url is_mq_server garbage fh content buffer Inv s s1 fd
        offset size keep file sdir string short eo ef em er
        (ReadsAll-Readable k.host fd content Inv law) inv small room in
    let bs = bytes_at content offset size in
    let (t3, got, inv3) = law.reads t1 offset size inv' in
    (
      record { ret = pos (length bs); errno = none },
      bs ++ drop (length bs) buffer,
      s2,
      (if k.session_file == 0 then (k.host.close t3 fd).0 else t3),
      rw (
        el,
        ef,
        law.seeks t1 offset inv',
        ltb-zero offset,
        got,
        memcpy-append [] buffer bs 0 (length bs) 0 refl
            (omega (arith, length-take size (drop offset content))) (omega arith),
        take_over (length bs) bs (omega arith),
      ),
      remote,
    )
