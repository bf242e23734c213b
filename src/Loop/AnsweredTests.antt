-- ===== src/Loop/AnsweredTests.antt =====
-- A session of one thread of optee_client/tee-supplicant/tee_supplicant.c: an allocation, an lseek behind
-- a meta parameter, a request to the VFS without parameters, an unknown request, and a fault.
use tee_sqlite.Prelude.{ℕ, ◌≡◌, refl, true, false, List, [], ◌∷◌, some, none, map, arith, inl}
use tee_sqlite.Wire.{Param, value_input, value_inout, not_supported, success, bad_parameters}
use tee_sqlite.Shm.Alloc.{Answers, Memory}
use tee_sqlite.Vfs.Libc.{Libc, Call}
use tee_sqlite.Shm.Alloc.{process_alloc}
use tee_sqlite.Shm.Param.{get_value}
use tee_sqlite.Wire.{decode}
use tee_sqlite.Vfs.Paths.{vfs_open}
use tee_sqlite.Vfs.Files.{vfs_lseek, vfs_pwrite}
use tee_sqlite.Vfs.Dispatch.{handler, tee_supp_vfs_process}
use tee_sqlite.Loop.Params.{find_params, count_meta, no_meta}
use tee_sqlite.Loop.Serve.{External, serve}
use tee_sqlite.Loop.Requests.{Sizes, Send, thread_loop}
use tee_sqlite.Loop.Answered.{Sent, round_of, AllFine, Looped, thread_loop-Looped}

abbrev granted : Answers
granted = record {
  calloc_ok = true;
  ioctl_fd = some 5;
  ioctl_id = 11;
  address = some 12288;
  munmap_ok = true;
}

abbrev no_memory : Memory
no_memory = record { shms = []; host = record { structs = 0; buffers = 0; fds = 0; maps = 0 } }

-- lseek gives 40, and the calls are kept.
abbrev quiet : Libc (List Call)
quiet = record {
  call = λ c w. (40, 0, c ∷ w);
  fstat_local = λ fd w. (0, 0, 0, w);
  getenv = λ name w. none;
  store = λ buf bs w. w;
}

abbrev others : External (List Call)
others func n params shms w = (not_supported, params, w)

abbrev sizes : Sizes
sizes = record { send_arg = 8; param = 32 }

abbrev meta_param : Param
meta_param = record { meta = true; type = value_input; a = 0; b = 0; c = 0 }

abbrev size_param : Param
size_param = record { meta = false; type = value_inout; a = 0; b = 256; c = 0 }

-- The codes of lseek and of pwrite.
abbrev lseek_params : List Param
lseek_params = record size_param { a = 16 } ∷ record size_param { a = 3; b = 40; c = 0 } ∷ []

abbrev sent : ℕ → List Param → List Param → Sent
sent func metas params = record {
  func = func;
  metas = metas;
  params = params;
  answers = granted;
  waiters_left = 0;
  spawn_ok = true;
}

abbrev session : List Sent
session =
    sent 6 [] (size_param ∷ [])
    ∷ sent 30 (meta_param ∷ []) lseek_params
    ∷ sent 30 [] []
    ∷ sent 99 [] []
    ∷ sent 30 [] (record size_param { a = 21 } ∷ size_param ∷ size_param ∷ [])
    ∷ sent 6 [] (size_param ∷ [])
    ∷ []

session-AllFine : AllFine session
session-AllFine = (
  record {
    in_front = tt;
    behind = (refl, tt);
    few = omega arith;
    room = inl (omega arith);
    goes_on = inl refl;
  },
  (
    record {
      in_front = (refl, tt);
      behind = (refl, (refl, tt));
      few = omega arith;
      room = inl (omega arith);
      goes_on = inl refl;
    },
    (
      record {
        in_front = tt;
        behind = tt;
        few = omega arith;
        room = inl (omega arith);
        goes_on = inl refl;
      },
      (
        record {
          in_front = tt;
          behind = tt;
          few = omega arith;
          room = inl (omega arith);
          goes_on = inl refl;
        },
        (
          record {
            in_front = tt;
            behind = (refl, (refl, (refl, tt)));
            few = omega arith;
            room = inl (omega arith);
            goes_on = inl refl;
          },
          (
            record {
              in_front = tt;
              behind = (refl, tt);
              few = omega arith;
              room = inl (omega arith);
              goes_on = inl refl;
            },
            tt,
          ),
        ),
      ),
    ),
  ),
)

-- Four responses: the fifth request dereferences NULL.
thread_loop-session :
    map
      (λ (r : Send). r.ret)
      (thread_loop quiet others false sizes (map round_of session) no_memory []).0
    ≡ success ∷ success ∷ bad_parameters ∷ not_supported ∷ []
unfolding thread_loop find_params vfs_open count_meta no_meta serve process_alloc
    tee_supp_vfs_process handler decode vfs_lseek vfs_pwrite get_value
thread_loop-session = refl

thread_loop-Looped_example :
    Looped quiet others false sizes
      (λ func n params shms w. refl)
      session
      no_memory
      []
      (thread_loop quiet others false sizes (map round_of session) no_memory [])
thread_loop-Looped_example =
    thread_loop-Looped quiet others false sizes (λ func n params shms w. refl) session no_memory []
      session-AllFine
