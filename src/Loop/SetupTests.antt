-- ===== src/Loop/SetupTests.antt =====
-- A device that opens, a daemon that starts, and a trusted application that is loaded, as in
-- optee_client/tee-supplicant/tee_supplicant.c.
use tee_sqlite.Prelude.{
  ℕ, suc, ◌+◌, ◌-◌, ◌≡◌, refl, Bool, true, false, List, [], ◌∷◌, none, some, arith, ◌==◌,
  if◌then◌else◌, get_elem?, map, ◌++◌, ◌&&◌, ◌↔◌,
}
use tee_sqlite.Wire.{Param, value_input, memref_output, success}
use tee_sqlite.Shm.{TeeShm}
use tee_sqlite.Loop.Load.{Modules}
use tee_sqlite.Loop.TaPath.{ta_path, exits, set_ta_path}
use tee_sqlite.Loop.Directories.{directories, set_ta_path-directories}
use tee_sqlite.Loop.Setup.{
  Params, daemonize, ta_dir, in_parent, Answers, exit_success, read_options, main,
}
use tee_sqlite.Loop.Daemon.{serves, with_fork, child_answers, main-Agree}
use tee_sqlite.Loop.Device.{Devices, CountsOpen, Balance, get_dev_fd, get_dev_fd-Balance}

-- The first device does not open; the state counts open descriptors.
abbrev is_first : List ℕ → Bool
is_first name = elim (get_elem? name 12) [ some b ↦ b == 48 | none ↦ false ]

abbrev devices : Devices ℕ
devices = record {
  open_rdwr = λ name w. if is_first name then (4294967295, w) else (3, suc w);
  version = λ fd w. (some (1, 5), w);
  close = λ fd w. w - 1;
  impl_id_optee = 1;
}

devices-CountsOpen : CountsOpen devices (λ w. w)
devices-CountsOpen = record {
  opens = λ name w h. ground arith;
  fails = λ name w h. ground arith;
  asks = λ fd w. refl;
  closes = λ fd w h. omega (arith, h);
}

get_dev_fd-Balance_example : Balance (λ w. w) 0 (get_dev_fd devices 0)
get_dev_fd-Balance_example = get_dev_fd-Balance devices (λ w. w) devices-CountsOpen 0

-- A trusted application of 16 bytes, and a buffer of 20.
abbrev modules : Modules ℕ
modules = record {
  load_secure_module = λ uuid buffer size w. (true, 16, w + 1);
  rpmb_process_request = λ req n rsp k w. (success, w);
  octets = λ v i. 0;
}

abbrev name_value : Param
name_value = record { meta = false; type = value_input; a = 1; b = 2; c = 0 }

abbrev ta_buffer : Param
ta_buffer = record { meta = false; type = memref_output; a = 10; b = 20; c = 9 }

abbrev shared : List TeeShm
shared = record { id = 9; p = 8192; size = 64; registered = false; fd = 4 } ∷ []

-- "/a:/b::/c".
abbrev path : List ℕ
path = 47 ∷ 97 ∷ 58 ∷ 47 ∷ 98 ∷ 58 ∷ 58 ∷ 47 ∷ 99 ∷ []

set_ta_path-directories_example :
    set_ta_path true true path
    ≡ (if true && true then ta_path (map some (directories path) ++ (none ∷ [])) else exits)
set_ta_path-directories_example = set_ta_path-directories true true path

path_directories : directories path ≡ (47 ∷ 97 ∷ []) ∷ (47 ∷ 98 ∷ []) ∷ (47 ∷ 99 ∷ []) ∷ []
path_directories = refl

abbrev params : Params
params = record { fs_parent_path = []; ta_dir = []; plugin_load_path = []; rpmb_cid = [] }

-- The options -d and -t.
abbrev answers : Answers
answers = record {
  mutex_ok = true;
  opts = daemonize ∷ ta_dir path ∷ [];
  args = [];
  strdup_ok = true;
  malloc_ok = true;
  path = path;
  plugins_ok = true;
  pipe_ok = true;
  fork = in_parent 1;
  write_ok = true;
}

main-Agree_example :
    ((main devices (with_fork (in_parent 1) answers) params 0).0 ≡ exit_success)
    ↔ (serves (main devices (child_answers devices answers true true true) params 0).0 ≡ true)
unfolding main get_dev_fd read_options
main-Agree_example = main-Agree devices answers true true true 1 params 0 refl refl
