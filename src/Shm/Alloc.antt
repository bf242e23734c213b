-- ===== src/Shm/Alloc.antt =====
-- alloc_shm, register_local_shm, process_alloc and process_free of
-- optee_client/tee-supplicant/tee_supplicant.c. What the C library and the driver answer is given
-- by `Answers`; what they hold for the supplicant is counted in `Host`, so that a resource that is
-- not released shows.
use tee_sqlite.Prelude.{
  ℕ, ◌+◌, ◌-◌, Bool, true, false, List, [], ◌∷◌, Option, none, some, ◌==◌, if◌then◌else◌, ◌>>◌,
  guard, low32, sext,
}
use tee_sqlite.Wire.{Param, TeecResult, success, bad_parameters, out_of_memory}
use tee_sqlite.Shm.{TeeShm, pop_tshm, push_tshm}
use tee_sqlite.Shm.Param.{get_value}

-- Live `struct tee_shm`, page-aligned buffers, file descriptors and mappings.
pub record Host : Type 0 where
  pub structs : ℕ
  pub buffers : ℕ
  pub fds : ℕ
  pub maps : ℕ

-- calloc succeeds; the file descriptor that ioctl gives, if not negative, and the identifier that it
-- sets; the address that posix_memalign or mmap gives; munmap returns 0.
pub record Answers : Type 0 where
  pub calloc_ok : Bool
  pub ioctl_fd : Option ℕ
  pub ioctl_id : ℕ
  pub address : Option ℕ
  pub munmap_ok : Bool

-- calloc, ioctl, mmap and posix_memalign where they succeed, and what gives each back.
abbrev pub calloc : Host → Host
calloc h = record h { structs = h.structs + 1 }

abbrev pub free_struct : Host → Host
free_struct h = record h { structs = h.structs - 1 }

abbrev pub open_fd : Host → Host
open_fd h = record h { fds = h.fds + 1 }

abbrev pub close_fd : Host → Host
close_fd h = record h { fds = h.fds - 1 }

abbrev pub mmap : Host → Host
mmap h = record h { maps = h.maps + 1 }

abbrev pub munmap : Host → Host
munmap h = record h { maps = h.maps - 1 }

abbrev pub memalign : Host → Host
memalign h = record h { buffers = h.buffers + 1 }

abbrev pub free_buffer : Host → Host
free_buffer h = record h { buffers = h.buffers - 1 }

module _ (env : Answers) where
  unfoldable pub alloc_shm : Host → Option TeeShm × Host
  alloc_shm h =
      if env.calloc_ok
      then elim env.ioctl_fd [
        | none ↦ (none, free_struct (calloc h))
        | some fd ↦ elim env.address [
          | none ↦ (none, free_struct (close_fd (open_fd (calloc h))))
          | some p ↦ (
            some (record { id = env.ioctl_id; p = p; size = 0; registered = false; fd = fd }),
            mmap (open_fd (calloc h)),
          )
        ]
      ]
      else (none, h)

  unfoldable pub register_local_shm : Host → Option TeeShm × Host
  register_local_shm h = elim env.address [
    | none ↦ (none, h)
    | some buf ↦
        if env.calloc_ok
        then elim env.ioctl_fd [
          | none ↦ (none, free_buffer (free_struct (calloc (memalign h))))
          | some fd ↦ (
            some (record { id = env.ioctl_id; p = buf; size = 0; registered = true; fd = fd }),
            open_fd (calloc (memalign h)),
          )
        ]
        else (none, free_buffer (memalign h))
  ]

-- The list and the host; what a request answers, and its parameters after it.
pub record Memory : Type 0 where
  pub shms : List TeeShm
  pub host : Host

pub record Answer : Type 0 where
  pub result : TeecResult
  pub params : List Param
  pub memory : Memory

-- `val` points to the fields of params[0], where `c` is written.
unfoldable pub set_first_c : List Param → ℕ → List Param
set_first_c [] c = []
set_first_c (p ∷ ps) c = record p { c = c } ∷ ps

-- What process_alloc does with the size asked for, once the parameters are accepted.
unfoldable pub alloc_size : Bool → Answers → ℕ → List Param → Memory → Answer
unfolding alloc_shm register_local_shm set_first_c push_tshm
alloc_size reg_mem env size params m =
    let (shm, host) = if reg_mem then register_local_shm env m.host else alloc_shm env m.host in
    elim shm [
      | none ↦ record {
        result = out_of_memory;
        params = params;
        memory = record { shms = m.shms; host = host };
      }
      | some t ↦ record {
        result = success;
        params = set_first_c params (sext t.id);
        memory = record { shms = push_tshm (record t { size = size }) m.shms; host = host };
      }
    ]

abbrev pub refuse : List Param → Memory → Answer
refuse params m = record { result = bad_parameters; params = params; memory = m }

-- `num_params != 1 || get_value(...)`: `none` refuses.
unfoldable pub only_value : ℕ → List Param → Option Param
unfolding get_value
only_value num_params params = do guard (num_params == 1); get_value num_params params 0

-- `reg_mem` is the test of TEE_GEN_CAP_REG_MEM in `arg->gen_caps`.
unfoldable pub process_alloc : Bool → Answers → ℕ → List Param → Memory → Answer
unfolding alloc_size only_value
process_alloc reg_mem env num_params params m = elim (only_value num_params params) [
  | none ↦ refuse params m
  | some val ↦ alloc_size reg_mem env val.b params m
]

-- The release of an element that is unlinked.
unfoldable pub release : Answers → TeeShm → List Param → Memory → Answer
release env t params m =
    if t.registered
    then record {
      result = success;
      params = params;
      memory = record m { host = free_struct (free_buffer (close_fd m.host)) };
    }
    else if env.munmap_ok
    then record {
      result = success;
      params = params;
      memory = record m { host = free_struct (munmap (close_fd m.host)) };
    }
    else record {
      result = bad_parameters;
      params = params;
      memory = record m { host = free_struct (close_fd m.host) };
    }

-- What process_free does with the identifier, once the parameters are accepted.
unfoldable pub free_id : Answers → ℕ → List Param → Memory → Answer
unfolding release pop_tshm
free_id env id params m =
    let (found, rest) = pop_tshm id m.shms in
    elim found [
      | none ↦ refuse params (record m { shms = rest })
      | some t ↦ release env t params (record m { shms = rest })
    ]

unfoldable pub process_free : Answers → ℕ → List Param → Memory → Answer
unfolding only_value free_id
process_free env num_params params m = elim (only_value num_params params) [
  | none ↦ refuse params m
  | some val ↦ free_id env (low32 val.b) params m
]
