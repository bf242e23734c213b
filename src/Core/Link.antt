-- ===== src/Core/Link.antt =====
-- What lies between a system call of optee_os/core/tee/tee_sqlite.c and the supplicant's
-- tee_supp_vfs_process of optee_client/tee-supplicant/tee_supplicant.c: the secure kernel's RPC, the
-- driver of the normal world and process_one_request. It is a hypothesis, `IsConnected`.
use tee_sqlite.Prelude.{ℕ, suc, ◌≡◌, refl, List, [], ◌∷◌, some, false, length}
use tee_sqlite.Wire.{
  Param, ParamType, VfsOp, TeecResult, core_code, decode, value_input, value_output, value_inout,
}
use tee_sqlite.Shm.{TeeShm}
use tee_sqlite.Vfs.Libc.{Libc, reply}
use tee_sqlite.Vfs.Dispatch.{tee_supp_vfs_process}
use tee_sqlite.Core.{Direction, dir_in, dir_out, dir_inout, ThreadParam, value, Rpc}

-- The two repositories' headers agree: the supplicant decodes each code that the secure kernel
-- sends as the operation that is meant.
pub decode-core_code : (op : VfsOp) → decode (core_code op) ≡ some op
unfolding decode core_code
decode-core_code VfsOp.open_op = refl
decode-core_code _ = refl

-- A view of the state of both worlds: the supplicant's list and its process, and the form in which
-- a parameter reaches the supplicant.
pub record Link (S W : Type 0) : Type 0 where
  pub shms : S → List TeeShm
  pub world : S → W
  pub with_world : W → S → S
  pub encode : ThreadParam → Param

abbrev pub value_type : Direction → ParamType
value_type dir_in = value_input
value_type dir_out = value_output
value_type dir_inout = value_inout

abbrev pub encode_all : {S W : Type 0} → Link S W → List ThreadParam → List Param
encode_all link [] = []
encode_all link (p ∷ ps) = link.encode p ∷ encode_all link ps

-- What is documented of the way between: a value reaches the supplicant with its words and its
-- direction, and where the supplicant answers, the words of an inout value in front come back, the
-- other parameters are as they were, and the state is that of the supplicant's process.
pub record IsConnected {S W : Type 0} (rpc : Rpc S) (os : Libc W) (link : Link S W) : Type 0 where
  pub encode_value :
      (d : Direction) (a b c : ℕ)
      → link.encode (value d a b c)
        ≡ record { meta = false; type = value_type d; a = a; b = b; c = c }
  pub answered :
      (a b c : ℕ) (rest : List ThreadParam) (s : S) (r : TeecResult) (q : Param) (qs : List Param)
      (w : W)
      → tee_supp_vfs_process os
          (suc (length rest))
          (encode_all link (value dir_inout a b c ∷ rest))
          (link.shms s)
          (link.world s)
        ≡ reply r (q ∷ qs) w
      → rpc.cmd (value dir_inout a b c ∷ rest) s
        ≡ (value dir_inout q.a q.b q.c ∷ rest, link.with_world w s)
