-- ===== src/Core/Tests.antt =====
-- System calls of optee_os/core/tee/tee_sqlite.c in a small world of both sides: the secure kernel's
-- requests go to tee_supp_vfs_process of optee_client/tee-supplicant/tee_supplicant.c, over a C
-- library that records the calls.
use tee_sqlite.Prelude.{
  ℕ, ◌+◌, ◌-◌, ◌≡◌, refl, ap, false, List, [], ◌∷◌, Option, none, some, arith, ltb, if◌then◌else◌,
  length, sext, true,
}
use tee_sqlite.Wire.{Param, ParamType, VfsOp, core_code, memref_input, memref_output, memref_inout}
use tee_sqlite.Shm.{TeeShm, find_tshm}
use tee_sqlite.Vfs.Libc.{Libc, Call, Outcome, reply}
use tee_sqlite.Vfs.Dispatch.{tee_supp_vfs_process}
use tee_sqlite.Core.{Mobj, Direction, dir_in, dir_out, dir_inout, ThreadParam, value, memref, Rpc}
use tee_sqlite.Shm.Param.{SharedMemory, get_param}
use tee_sqlite.Core.Buffers.{syscall_vfs_read}
use tee_sqlite.Core.BufferReach.{cleared, syscall_vfs_read-direct}
use tee_sqlite.Core.Link.{Link, IsConnected, value_type, encode_all}
use tee_sqlite.Core.Reach.{lseek_value, direct, issue, issue-direct, inout_value, in_value}
use tee_sqlite.Core.PathReach.{open_path, direct_at, issue_on, filled, address, issue_on-direct_at}

-- The supplicant's list, the calls of the C library, and the payloads that are allocated.
record World : Type 0 where
  shms : List TeeShm
  calls : List Call
  payloads : ℕ

abbrev recording : Libc (List Call)
recording = record {
  call = λ c w. (4, 0, c ∷ w);
  fstat_local = λ fd w. (0, 0, 10, w);
  getenv = λ name w. none;
  store = λ buf bs w. w;
}

abbrev memref_type : Direction → ParamType
memref_type dir_in = memref_input
memref_type dir_out = memref_output
memref_type dir_inout = memref_inout

abbrev encode : ThreadParam → Param
encode (value d a b c) = record { meta = false; type = value_type d; a = a; b = b; c = c }
encode (memref d none offs size) = record {
  meta = false;
  type = memref_type d;
  a = offs;
  b = size;
  c = 0;
}
encode (memref d (some m) offs size) = record {
  meta = false;
  type = memref_type d;
  a = offs;
  b = m.size;
  c = m.handle;
}

abbrev world_link : Link World (List Call)
world_link = record {
  shms = λ s. s.shms;
  world = λ s. s.calls;
  with_world = λ w s. record s { calls = w };
  encode = encode;
}

abbrev taken : List ThreadParam → World → Outcome (List Call) → List ThreadParam × World
taken (value d a b c ∷ rest) s (reply r (q ∷ qs) w) =
    (value d q.a q.b q.c ∷ rest, record s { calls = w })
taken ps s _ = (ps, s)

abbrev send : List ThreadParam → World → List ThreadParam × World
send ps s =
    taken ps s
      (tee_supp_vfs_process recording (length ps) (encode_all world_link ps) s.shms s.calls)

-- A payload of at most a page, at a fixed address.
abbrev alloc : ℕ → World → Option Mobj × World
alloc n s = if ltb 4096 n then (none, s) else (
  some (record { handle = 1; size = n }),
  record {
    shms = record { id = 1; p = 4096; size = n; registered = false; fd = 3 } ∷ s.shms;
    calls = s.calls;
    payloads = s.payloads + 1;
  },
)

abbrev free : Option Mobj → World → World
free none s = s
free (some m) s = record s { payloads = s.payloads - 1 }

abbrev world_rpc : Rpc World
world_rpc = record {
  alloc_payload = alloc;
  write_va = λ m bs s. s;
  read_va = λ m n s. [];
  cmd = send;
  free_payload = free;
}

world-IsConnected : IsConnected world_rpc recording world_link
world-IsConnected = record {
  encode_value = λ d a b c. refl;
  answered = λ a b c rest s r q qs w h. ap (taken (value dir_inout a b c ∷ rest) s) h;
}

abbrev start : World
start = record { shms = []; calls = []; payloads = 0 }

issue-direct_example :
    issue world_rpc recording world_link (lseek_value 3 100 0) start
    ≡ (4, record start { calls = Call.lseek 3 100 0 ∷ [] })
unfolding direct
issue-direct_example =
    issue-direct world_rpc recording world_link world-IsConnected (lseek_value 3 100 0) start
      (omega arith, omega arith) tt

abbrev payload : Mobj
payload = record { handle = 1; size = 2 }

issue_on-direct_at_example :
    issue_on world_rpc recording world_link (open_path 2 438) (47 ∷ []) start ≡ (
      (recording.call
          (direct_at (open_path 2 438) (
            address world_rpc recording world_link payload
              (filled world_rpc recording world_link payload (47 ∷ []) start)))
          []).0,
      free (some payload) (record (filled world_rpc recording world_link payload (47 ∷ []) start) {
        calls =
            direct_at (open_path 2 438) (
              address world_rpc recording world_link payload
                (filled world_rpc recording world_link payload (47 ∷ []) start))
            ∷ [];
      }),
    )
issue_on-direct_at_example =
    issue_on-direct_at world_rpc recording world_link world-IsConnected (open_path 2 438) (47 ∷ [])
      start payload refl (omega arith) (omega arith, omega arith) (omega arith)

abbrev write_payload : Mobj
write_payload = record { handle = 1; size = 3 }

abbrev write_shm : TeeShm
write_shm = record { id = 1; p = 4096; size = 3; registered = false; fd = 3 }

abbrev read_buffer : SharedMemory
read_buffer = record { buffer = 4096; size = 3; id = 1; inout = true }

get_param-read :
    get_param 3
      (inout_value (core_code VfsOp.read_op)
        ∷ encode (memref dir_out (some write_payload) 0 0)
        ∷ in_value (sext 3) 3 0
        ∷ [])
      1
      (cleared world_rpc recording world_link write_payload 3 start).shms
    ≡ some read_buffer
unfolding get_param find_tshm
get_param-read = refl

syscall_vfs_read-direct_example : syscall_vfs_read world_rpc 3 3 start ≡ (
  (4, some []),
  free (some write_payload) (record (cleared world_rpc recording world_link write_payload 3 start) {
    calls = Call.read 3 4096 3 ∷ [];
  }),
)
syscall_vfs_read-direct_example =
    syscall_vfs_read-direct world_rpc recording world_link world-IsConnected 3 3 start write_payload
      read_buffer refl (omega arith) (omega arith) get_param-read
