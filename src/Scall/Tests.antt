-- ===== src/Scall/Tests.antt =====
-- A system call of a trusted application, as in optee_os/core/kernel/scall.c.
use tee_sqlite.Prelude.{ℕ, ◌+◌, ◌≡◌, refl, true, List, [], ◌∷◌, Option, length, arith}
use tee_sqlite.Wire.{VfsOp}
use tee_sqlite.Scall.{Call, tee_scn, Regs, scall_handle_user_ta}
use tee_sqlite.Scall.Ldelf.{
  LdelfCall, LdelfNumbers, as_shared, scall_handle_ldelf, scall_handle_ldelf-user_ta,
}
use tee_sqlite.Scall.Dispatch.{scall_handle_user_ta-tee_scn}

-- Each call counts its arguments, and the calls are counted.
abbrev count_arguments : Option Call → List ℕ → ℕ → ℕ × ℕ
count_arguments call args s = (length args, s + 1)

-- lseek by its number.
abbrev lseek_regs : Regs
lseek_regs = record { scn = 87; max_args = 3; args = 4 ∷ 100 ∷ 0 ∷ []; retval = 0 }

lseek_number : 87 ≡ tee_scn (Call.vfs VfsOp.lseek_op)
unfolding tee_scn
lseek_number = refl

scall_handle_user_ta-tee_scn_example :
    scall_handle_user_ta 9 count_arguments lseek_regs 0
    ≡ (true, record lseek_regs { retval = 3 }, 1)
scall_handle_user_ta-tee_scn_example =
    scall_handle_user_ta-tee_scn 9 count_arguments lseek_regs 0 (Call.vfs VfsOp.lseek_op)
      lseek_number (omega arith) (λ e. ground arith) (λ e. ground arith)

abbrev count_ldelf_arguments : Option LdelfCall → List ℕ → ℕ → ℕ × ℕ
count_ldelf_arguments call args s = (length args, s + 1)

abbrev user_numbers : LdelfNumbers
user_numbers = record { return = 0; panic = 2 }

return_is_0 : user_numbers.return ≡ tee_scn Call.sys_return
unfolding tee_scn
return_is_0 = refl

panic_is_2 : user_numbers.panic ≡ tee_scn Call.panic
unfolding tee_scn
panic_is_2 = refl

-- panic by its number.
abbrev panic_regs : Regs
panic_regs = record { scn = 2; max_args = 1; args = 7 ∷ []; retval = 0 }

scall_handle_ldelf-user_ta_example :
    scall_handle_ldelf user_numbers 9 count_ldelf_arguments panic_regs 0
    ≡ scall_handle_user_ta 9 (λ c. count_ldelf_arguments (as_shared c)) panic_regs 0
scall_handle_ldelf-user_ta_example =
    scall_handle_ldelf-user_ta user_numbers 9 count_ldelf_arguments panic_regs 0 return_is_0
      panic_is_2 (omega arith)
