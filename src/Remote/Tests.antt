-- ===== src/Remote/Tests.antt =====
-- Theorems about a client and a server, at concrete inputs.
use xpn.Prelude.{
  ℕ, zero, suc, ◌<◌, ◌≤◌, ◌≡◌, refl, ap, ◌∙◌, Bool, true, false, none, some, [], ◌∷◌, ◌++◌, ltb,
  if◌then◌else◌, length, take, drop, length-take, length-drop, arith,
}
use xpn.Prelude.Int.{ℤ, pos, negsuc}
use xpn.Metadata.{Metadata}
use xpn.Policy.Grouping.{Bytes}
use xpn.Protocol.{Status, raw, xpn_path_max}
use xpn.Server.{Host, read_path}
use xpn.Server.Transfer.Frames.{Readable}
use xpn.Server.Transfer.Writes.{Writable, overwrite}
use xpn.Server.Transfer.Ends.{op_read-Ends, Ends}
use xpn.Server.Transfer.{op_read}
use xpn.Server.Mdata.{Layout}
use xpn.Server.Mdata.Sizes.{SizeField, store_sizes, AtLeast, IsOneOf, store_sizes-largest}
use xpn.Server.Dispatch.{Stack}
use xpn.Nfi.{Fhandle, path_field}
use xpn.Nfi.Files.{nfi_open, nfi_remove}
use xpn.Nfi.Transfer.{nfi_read, nfi_write}
use xpn.Remote.{idle}
use xpn.Remote.Paths.{read_path-path_field}
use xpn.Remote.Calls.{link, known, nfi_remove-op_rm}
use xpn.Remote.Local.{ReadsAll, take-length-take, local_read-nfi_read}
use xpn.Nfi.Local.{Local, local_read}
use xpn.Nfi.{Answer}
use xpn.Remote.Calls.Open.{nfi_open-op_open, handle}
use xpn.Remote.Read.Whole.{nfi_read-op_read}
use xpn.Remote.Write.Whole.{nfi_write-op_write}
use xpn.Remote.Write.Unheard.{nfi_write_unheard}

-- A file system of one file and a position in it, which reads two bytes at most at once; its
-- directories are empty.
abbrev Disk : Type 0
Disk = Bytes × ℕ

abbrev at_once : ℕ → ℕ
at_once n = if ltb 2 n then 2 else n

abbrev disk : Host Disk
disk = record {
  errno = λ s. pos 0;
  clear_errno = λ s. s;
  malloc = λ s n. true;
  open_path = λ s path flags. (s, pos 3);
  open2 = λ s path flags mode. (s, pos 3);
  creat = λ s path mode. (s, pos 3);
  close = λ s fd. (s, pos 0);
  fsync = λ s fd. s;
  lseek = λ s fd o. ((s.0, o), pos o);
  read = λ s fd n. (s, some (take (at_once n) (drop s.1 s.0)));
  write = λ s fd bs. ((overwrite s.1 bs s.0, s.1), some (length bs));
  unlink = λ s path. (s, negsuc 0);
  rename = λ s from to. (s, pos 0);
  stat = λ s path. (s, pos 0, record { st_mode = 0; st_size = pos 0 });
  mkdir = λ s path mode. (s, pos 0);
  rmdir = λ s path. (s, pos 0);
  opendir = λ s path. (s, some 1);
  readdir = λ s dir. (s, none);
  telldir = λ s dir. (s, pos 0);
  seekdir = λ s dir at. s;
  closedir = λ s dir. (s, pos 0);
  subscribe = λ s m. s;
  unsubscribe = λ s m. s;
}

-- One that cannot seek.
abbrev pipe_disk : Host Disk
pipe_disk = record disk { lseek = λ s fd o. (s, negsuc 28) }

abbrev no_mdata : Metadata
no_mdata = record {
  magic_number = [];
  version = pos 0;
  type = pos 0;
  block_size = pos 0;
  file_size = pos 0;
  replication_level = pos 0;
  first_node = pos 0;
  distribution_policy = pos 0;
  data_nserv = [];
  offsets = [];
}

-- A size is a sign and a number, and the metadata are the size.
abbrev encode : ℤ → Bytes
encode (pos n) = 0 ∷ n ∷ []
encode (negsuc n) = 1 ∷ n ∷ []

abbrev decode : Bytes → ℤ
decode (zero ∷ n ∷ bs) = pos n
decode (suc k ∷ n ∷ bs) = negsuc n
decode bs = pos 0

abbrev layout : Layout
layout = record {
  sizeof_metadata = 2;
  sizeof_size = 2;
  offset_of_file_size = 0;
  zeros = no_mdata;
  decode_mdata = λ bs. no_mdata;
  encode_mdata = λ m. [];
  decode_size = decode;
  encode_size = encode;
  sizeof_answer = λ r. 16;
}

abbrev stack : Stack
stack = record {
  req_status_ret = pos 0;
  req_size = pos 7;
  req_dir = 0;
  ret_entry = record {
    end = 0;
    telldir = pos 0;
    ret = [];
    status = record { ret = pos 0; server_errno = pos 0 };
  };
}

abbrev parse_url : Bytes → ℤ × Bytes
parse_url url = (pos 0, url)

abbrev is_mq : Bytes → Bool
is_mq url = false

abbrev name : Bytes
name = b'/' ∷ b'f' ∷ []

abbrev fh : Fhandle
fh = record {
  url = name;
  has_mqtt = 0;
  is_dir = false;
  path = name;
  fd = pos 3;
  telldir = pos 0;
  dir = 0;
}

abbrev garbage : Status
garbage = record { ret = pos 0; server_errno = pos 0 }

abbrev file : Bytes
file = 10 ∷ 11 ∷ 12 ∷ 13 ∷ 14 ∷ 15 ∷ []

abbrev buffer : Bytes
buffer = 0 ∷ 0 ∷ 0 ∷ 0 ∷ 0 ∷ 0 ∷ 0 ∷ []

at_once_le : (n : ℕ) → at_once n ≤ n
at_once_le n = ground arith

at_once_positive : (n : ℕ) → 0 < n → 0 < at_once n
at_once_positive n h = ground arith

abbrev HasContent : Bytes → Disk → Type 0
HasContent content s = s.0 ≡ content

disk-Readable : (content : Bytes) → Readable disk (pos 3) content (HasContent content)
disk-Readable content = record {
  seeks = λ s o e. refl;
  reads = λ s o n e. (
    (s.0, o),
    take (at_once n) (drop o content),
    rw e refl,
    e,
    record {
      inside = take-length-take (at_once n) (drop o content);
      at_most = omega (arith, length-take (at_once n) (drop o content), at_once_le n);
      at_end = λ some_left nothing. omega (
        arith,
        length-take (at_once n) (drop o content),
        length-drop o content,
        at_once_positive n some_left,
      );
    },
  );
}

disk-Writable : Writable disk (pos 3) HasContent
disk-Writable = record {
  seeks = λ content s o e. refl;
  writes = λ content s o bs e. ((overwrite o bs s.0, o), refl, ap (overwrite o bs) e);
  fsyncs = λ content s e. e;
  closes = λ content s e. e;
}

read_path-path_field_example :
    read_path {S = Disk}
      (record {
        host = (file, 0);
        incoming = raw (drop xpn_path_max name) ++ raw file;
        outgoing = [];
      })
      (length name)
      (path_field name)
    ≡ some (name, record { host = (file, 0); incoming = raw file; outgoing = [] })
read_path-path_field_example =
    read_path-path_field (record { host = (file, 0); incoming = []; outgoing = [] }) name (raw file)
      refl (omega arith)

nfi_remove-op_rm_example :
    nfi_remove
      (link disk layout stack parse_url is_mq)
      garbage
      (known disk layout stack parse_url is_mq (idle disk layout stack (file, 0)) 1 0 1)
      name
    ≡ some (
      known disk layout stack parse_url is_mq (idle disk layout stack (file, 0)) 1 0 1,
      record { ret = pos 0; errno = some (pos 0) },
    )
nfi_remove-op_rm_example =
    nfi_remove-op_rm disk layout stack parse_url is_mq garbage (file, 0) (file, 0) (negsuc 0)
      (pos 0) name name 1 0 1 refl refl refl (omega arith) refl

nfi_open-op_open_example :
    nfi_open
      (link disk layout stack parse_url is_mq)
      garbage
      (known disk layout stack parse_url is_mq (idle disk layout stack (file, 0)) 0 1 1)
      name
      2
      0
    ≡ some (
      known disk layout stack parse_url is_mq (idle disk layout stack (file, 0)) 0 1 1,
      record { ret = pos 0; errno = none },
      some (handle disk layout stack parse_url is_mq name name (pos 3)),
    )
nfi_open-op_open_example =
    nfi_open-op_open disk layout stack parse_url is_mq garbage (file, 0) (file, 0) (pos 3) (pos 0)
      name name 2 0 0 1 refl refl refl refl (omega arith) refl

-- Five bytes from the third on are asked for, of which the file has four: three rounds.
nfi_read-op_read_example :
    (s2 : Disk) × (nfi_read
        (link disk layout stack parse_url is_mq)
        0
        (known disk layout stack parse_url is_mq (idle disk layout stack (file, 0)) 1 0 1)
        fh
        buffer
        2
        5
      ≡ some (
        known disk layout stack parse_url is_mq (idle disk layout stack s2) 1 0 1,
        record { ret = pos 4; errno = none },
        12 ∷ 13 ∷ 14 ∷ 15 ∷ 0 ∷ 0 ∷ 0 ∷ [],
      ))
nfi_read-op_read_example =
    nfi_read-op_read disk layout stack parse_url is_mq 0 fh file buffer (HasContent file) (file, 0)
      (file, 0) (pos 3) 2 5 1 0 1 refl (omega arith) refl refl refl refl (disk-Readable file) refl
      (omega arith) (omega arith)

nfi_write-op_write_example :
    (s2 : Disk) × (nfi_write
        (link disk layout stack parse_url is_mq)
        (known disk layout stack parse_url is_mq (idle disk layout stack ([], 0)) 1 1 1)
        fh
        file
        2
        3
      ≡ some (
        known disk layout stack parse_url is_mq (idle disk layout stack s2) 1 1 1,
        record { ret = pos 3; errno = none },
      ))
    × HasContent (0 ∷ 0 ∷ 10 ∷ 11 ∷ 12 ∷ []) s2
nfi_write-op_write_example =
    nfi_write-op_write disk layout stack parse_url is_mq fh [] file HasContent ([], 0) ([], 0)
      (pos 3) 2 3 1 1 1 refl refl (omega arith) refl refl refl disk-Writable refl (omega arith)
      (omega arith) (omega arith)

nfi_write_unheard_example :
    (s2 : Disk) × (e : ℤ) × (nfi_write
        (link pipe_disk layout stack parse_url is_mq)
        (known pipe_disk layout stack parse_url is_mq (idle pipe_disk layout stack ([], 0)) 1 1 1)
        fh
        file
        2
        3
      ≡ some (
        known pipe_disk layout stack parse_url is_mq (idle pipe_disk layout stack s2) 1 1 1,
        record { ret = pos 3; errno = some e },
      ))
nfi_write_unheard_example =
    nfi_write_unheard pipe_disk layout stack parse_url is_mq fh file ([], 0) ([], 0) (pos 3) 2 3 1 1
      1 refl refl (omega arith) refl refl refl refl refl (omega arith) (omega arith) (omega arith)

op_read-Ends_example : Ends (
    op_read disk
      (pos 0)
      (record { host = (file, 0); incoming = []; outgoing = [] })
      (record {
        fd = pos 3;
        file_type = 0;
        offset = 2;
        size = 5;
        xpn_session = 0;
        path_len = length name;
        path = path_field name;
      }))
op_read-Ends_example =
    op_read-Ends disk (pos 0) (record { host = (file, 0); incoming = []; outgoing = [] })
      (record {
        fd = pos 3;
        file_type = 0;
        offset = 2;
        size = 5;
        xpn_session = 0;
        path_len = length name;
        path = path_field name;
      })
      (omega arith)

abbrev HasSize : ℤ → Disk → Type 0
HasSize size s = s.0 ≡ encode size

overwrite-encode : (size new : ℤ) → overwrite 0 (encode new) (encode size) ≡ encode new
overwrite-encode (pos m) (pos n) = refl
overwrite-encode (pos m) (negsuc n) = refl
overwrite-encode (negsuc m) (pos n) = refl
overwrite-encode (negsuc m) (negsuc n) = refl

take-encode : (size : ℤ) → take (at_once 2) (drop 0 (encode size)) ≡ encode size
take-encode (pos n) = refl
take-encode (negsuc n) = refl

length-encode : (size : ℤ) → 0 < length (encode size)
length-encode (pos n) = omega arith
length-encode (negsuc n) = omega arith

decode-encode : (size : ℤ) → decode (encode size) ≡ size
decode-encode (pos n) = refl
decode-encode (negsuc n) = refl

disk-SizeField : SizeField disk layout (pos 3) HasSize
disk-SizeField = record {
  reads = λ size s e. (
    (s.0, 0),
    encode size,
    rw (e, take-encode size) refl,
    length-encode size,
    decode-encode size,
    e,
  );
  writes = λ size new s e. (
    (overwrite 0 (encode new) s.0, 0),
    length (encode new),
    refl,
    ap (overwrite 0 (encode new)) e ∙ overwrite-encode size new,
  );
}

store_sizes-largest_example :
    (m : ℤ) × HasSize m (store_sizes disk layout (pos 3) (encode (pos 4), 0) (pos 9 ∷ pos 6 ∷ []))
    × AtLeast m (pos 4 ∷ pos 9 ∷ pos 6 ∷ [])
    × IsOneOf m (pos 4 ∷ pos 9 ∷ pos 6 ∷ [])
store_sizes-largest_example =
    store_sizes-largest disk layout (pos 3) HasSize (pos 9 ∷ pos 6 ∷ []) (pos 4) (encode (pos 4), 0)
      disk-SizeField refl

-- The same file system, which reads all at once.
abbrev whole_disk : Host Disk
whole_disk = record disk { read = λ s fd n. (s, some (take n (drop s.1 s.0))) }

abbrev local : Local Disk
local = record {
  host = whole_disk;
  layout = layout;
  parse_url = parse_url;
  keep_local = λ s. s;
  xpn_write_mdata = λ s url mdata. none;
  session_file = 0;
  session_dir = 0;
}

whole_disk-ReadsAll : ReadsAll whole_disk (pos 3) file (HasContent file)
whole_disk-ReadsAll = record { seeks = λ s o e. refl; reads = λ s o n e. ((s.0, o), rw e refl, e) }

local_read-nfi_read_example :
    (a : Answer) × (b : Bytes) × (s2 t2 : Disk) × (local_read local (file, 1) fh buffer 2 5
      ≡ some (t2, a, b))
    × (nfi_read
          (link whole_disk layout stack parse_url is_mq)
          0
          (known whole_disk layout stack parse_url is_mq
            (idle whole_disk layout stack (file, 0))
            1
            0
            1)
          fh
          buffer
          2
          5
        ≡ some (
          known whole_disk layout stack parse_url is_mq (idle whole_disk layout stack s2) 1 0 1,
          a,
          b,
        ))
local_read-nfi_read_example =
    local_read-nfi_read local layout stack is_mq 0 fh file buffer (HasContent file) (file, 0)
      (file, 0) (file, 1) (file, 1) (pos 3) 2 5 1 0 1 refl (omega arith) refl refl refl refl refl
      whole_disk-ReadsAll refl refl (omega arith) (omega arith)
