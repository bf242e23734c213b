-- ===== src/Stack/World.antt =====
-- A small world of both sides with one file, for calls from tee_vfs.c to the C library of
-- optee_client/tee-supplicant/tee_supplicant.c.
use tee_sqlite.Prelude.{
  ℕ, zero, suc, ◌+◌, ◌≡◌, ◌<◌, ◌^◌, ◌∙◌, ap₂, refl, ap, true, false, read_at, length-read_at,
  get_elem?-read_at, List, [], ◌∷◌, none, some, arith, ltb, if◌then◌else◌, length, replicate,
  length-replicate, inl,
}
use tee_sqlite.Wire.{Param, ParamType, memref_input, memref_output, memref_inout}
use tee_sqlite.Shm.{TeeShm, find_tshm}
use tee_sqlite.Vfs.Libc.{Libc, Call, Outcome, reply}
use tee_sqlite.Vfs.Dispatch.{tee_supp_vfs_process}
use tee_sqlite.Core.{Direction, dir_in, dir_out, dir_inout, ThreadParam, value, memref, Rpc}
use tee_sqlite.Core.Link.{Link, IsConnected, value_type, encode_all}
use tee_sqlite.TaVfs.{DemoFile, buffer_size}
use tee_sqlite.TaVfs.Overlay.{overlay}
use tee_sqlite.TaVfs.Buffer.{IsBuffered}
use tee_sqlite.Stack.Sessions.{KeepsContent}
use tee_sqlite.Stack.Laws.{IsPosix, IsPosixRead, IsSharing, ReadPayload}
use tee_sqlite.Stack.Syncs.{IsPosixSync}
use tee_sqlite.Shm.Param.{get_param, locate, type_is_memref, type_is_memref_input}

-- The file, the offset of its descriptor, and the bytes of the payload.
pub record Process : Type 0 where
  pub bytes : ℕ → ℕ
  pub ofst : ℕ
  pub shared : ℕ → ℕ
  pub synced : ℕ → ℕ

abbrev pub content : Process → ℕ → ℕ
content w = w.bytes

abbrev pub pos : Process → ℕ
pos w = w.ofst

abbrev pub bytes_at : Process → ℕ → ℕ → List ℕ
bytes_at w va n = read_at w.shared 0 n

-- A byte of a list, and 0 behind it.
abbrev byte : List ℕ → ℕ → ℕ
byte [] k = 0
byte (b ∷ bs) zero = b
byte (b ∷ bs) (suc k) = byte bs k

read_at-byte :
    (bs : List ℕ) (f : ℕ → ℕ) (o : ℕ)
    → ((k : ℕ) → k < length bs → f (o + k) ≡ byte bs k)
    → read_at f o (length bs) ≡ bs
read_at-byte [] f o h = refl
read_at-byte (b ∷ bs) f o h =
    ap₂ (λ c cs. c ∷ cs) (ap f (omega arith) ∙ h 0 (omega arith))
      (read_at-byte bs f (suc o) (λ k lt. ap f (omega arith) ∙ h (suc k) (omega arith)))

-- A call takes at most 2 ^ 31 - 1 bytes.
abbrev called : Call → Process → ℕ × ℕ × Process
called (Call.lseek fd o whence) w = (o, 0, record w { ofst = o })
called (Call.write fd va n) w =
    if ltb n 2147483648
    then (
      n,
      0,
      record w { bytes = overlay w.ofst (read_at w.shared 0 n) w.bytes; ofst = w.ofst + n },
    )
    else (0, 0, w)
called (Call.read fd va n) w =
    (n, 0, record w { shared = λ i. w.bytes (w.ofst + i); ofst = w.ofst + n })
called (Call.fsync fd) w = (0, 0, record w { synced = w.bytes })
called _ w = (0, 0, w)

abbrev pub os : Libc Process
os = record {
  call = called;
  fstat_local = λ fd w. (0, 0, 10, w);
  getenv = λ name w. none;
  store = λ buf bs w. w;
}

pub record World : Type 0 where
  pub shms : List TeeShm
  pub process : Process

abbrev memref_type : Direction → ParamType
memref_type dir_in = memref_input
memref_type dir_out = memref_output
memref_type dir_inout = memref_inout

abbrev encode : ThreadParam → Param
encode (value d a b c) = record { meta = false; type = value_type d; a = a; b = b; c = c }
encode (memref d none o n) = record { meta = false; type = memref_type d; a = o; b = n; c = 0 }
encode (memref d (some m) o n) = record {
  meta = false;
  type = memref_type d;
  a = o;
  b = m.size;
  c = m.handle;
}

abbrev pub link : Link World Process
link = record {
  shms = λ s. s.shms;
  world = λ s. s.process;
  with_world = λ w s. record s { process = w };
  encode = encode;
}

abbrev came_back : List ThreadParam → World → Outcome Process → List ThreadParam × World
came_back (value d a b c ∷ rest) s (reply r (q ∷ qs) w) =
    (value d q.a q.b q.c ∷ rest, record s { process = w })
came_back ps s _ = (ps, s)

abbrev pub rpc : Rpc World
rpc = record {
  alloc_payload = λ n s. (
    some (record { handle = 1; size = n }),
    record s { shms = record { id = 1; p = 4096; size = n; registered = false; fd = 3 } ∷ s.shms },
  );
  write_va = λ m bs s. record s { process = record (s.process) { shared = byte bs } };
  read_va = λ m n s. read_at s.process.shared 0 n;
  cmd = λ ps s.
      came_back ps s (tee_supp_vfs_process os (length ps) (encode_all link ps) s.shms s.process);
  free_payload = λ m s. s;
}

pub rpc-IsConnected : IsConnected rpc os link
rpc-IsConnected = record {
  encode_value = λ d a b c. refl;
  answered = λ a b c rest s r q qs w h. ap (came_back (value dir_inout a b c ∷ rest) s) h;
}

pub os-IsPosix : IsPosix os 3 content pos bytes_at
os-IsPosix = record {
  lseek_content = λ o w j. refl;
  lseek_pos = λ o w h. refl;
  write_count = λ va n w. inl (ground arith);
  write_content = λ va n w j h. write_whole va n w j h;
}
  where
    write_whole :
        (va n : ℕ) (w : Process) (j : ℕ)
        → (called (Call.write 3 va n) w).0 ≡ n
        → content (called (Call.write 3 va n) w).2 j
          ≡ overlay w.ofst (read_at w.shared 0 n) w.bytes j
    write_whole va n w j h = ground arith

pub rpc-IsSharing : IsSharing rpc link content pos bytes_at
rpc-IsSharing = record {
  part = λ w s. refl;
  there = λ n s. (record { handle = 1; size = n }, refl, omega arith);
  shows = λ m buf s h. read_at-byte buf (byte buf) 0 (λ k lt. ap (byte buf) (omega arith));
  alloc_content = λ n s j. refl;
  alloc_pos = λ n s. refl;
  copy_content = λ m bs s j. refl;
  copy_pos = λ m bs s. refl;
  free_content = λ m s j. refl;
}

abbrev pub journal_buffer : List ℕ
journal_buffer = 8 ∷ 9 ∷ replicate 8190 0

abbrev pub journal : DemoFile
journal = record { fd = 3; a_buffer = some journal_buffer; n_buffer = 2; i_buffer_ofst = 2 }

pub journal-IsBuffered : IsBuffered journal
unfolding buffer_size
journal-IsBuffered = record {
  whole = omega (arith, length-replicate {A = ℕ} 8190 0);
  within = omega arith;
}

abbrev pub start : World
start = record {
  shms = [];
  process = record { bytes = λ j. j + 5; ofst = 0; shared = λ i. 0; synced = λ j. 0 };
}

pub os-IsPosixRead : IsPosixRead os 3 content pos bytes_at
os-IsPosixRead = record {
  read_range = λ va n w small. inl (omega arith);
  read_bytes = λ va n k w small le lt.
      get_elem?-read_at (λ i. w.bytes (w.ofst + i)) 0 n k lt
      ∙ ap (λ j. some (w.bytes (w.ofst + j))) (omega arith);
  read_end = λ va n k w small le lt. absurd (omega (arith, le, lt));
}

pub read_payload : (n : ℕ) (s : World) → n < 2 ^ 31 → ReadPayload rpc os link bytes_at 3 n s
unfolding get_param find_tshm locate type_is_memref type_is_memref_input
read_payload n s small = record {
  payload = record { handle = 1; size = n };
  memory = record { buffer = 4096; size = n; id = 1; inout = true };
  there = refl;
  fits = omega arith;
  found = ground arith;
  shows = λ w. refl;
  whole = λ s'. length-read_at s'.process.shared 0 n;
}

pub os-IsPosixSync : IsPosixSync os 3 content (λ w. w.synced)
os-IsPosixSync = record { fsync_fits = λ w. omega arith; fsync_durable = λ w j h. refl }

pub os-KeepsContent : KeepsContent os 3 content
os-KeepsContent = record { read_keeps = λ va n w j small. refl; fsync_keeps = λ w j. refl }

-- A database has no write buffer.
abbrev pub database : DemoFile
database = record { fd = 3; a_buffer = none; n_buffer = 0; i_buffer_ofst = 0 }
