-- ===== src/Scall/Ldelf.antt =====
-- The system calls of ldelf in optee_os/core/kernel/scall.c: ldelf_syscall_table,
-- get_ldelf_syscall_func, scall_handle_ldelf and scall_sys_return_helper. The numbers LDELF_RETURN and
-- LDELF_PANIC are not in the repository.
use tee_sqlite.Prelude.{
  ℕ, zero, suc, ◌≡◌, ◌≤◌, refl, ◌==◌, ◌&&◌, not, Bool, true, List, [], ◌∷◌, Option, none, some,
  get_elem?, ltb, if◌then◌else◌, arith,
}
use tee_sqlite.Scall.{
  Call, tee_scn, tee_svc_max_args, get_tee_syscall_func, tee_syscall_table, Regs,
  scall_handle_user_ta,
}

-- The functions of the table: those of a trusted application, and ldelf_syscall_*.
pub data LdelfCall : Type 0 where
  shared : Call → LdelfCall
  map_zi unmap open_bin close_bin map_bin copy_from_bin set_prot remap gen_rnd_num : LdelfCall

unfoldable pub ldelf_syscall_table : List LdelfCall
ldelf_syscall_table =
    shared Call.sys_return
    ∷ shared Call.log
    ∷ shared Call.panic
    ∷ map_zi
    ∷ unmap
    ∷ open_bin
    ∷ close_bin
    ∷ map_bin
    ∷ copy_from_bin
    ∷ set_prot
    ∷ remap
    ∷ gen_rnd_num
    ∷ []

-- LDELF_SCN_MAX, which is one less than the size of the table by COMPILE_TIME_ASSERT.
abbrev pub ldelf_scn_max : ℕ
ldelf_scn_max = 11

-- `none` is syscall_not_supported.
unfoldable pub get_ldelf_syscall_func : ℕ → Option LdelfCall
unfolding ldelf_syscall_table
get_ldelf_syscall_func num =
    if ltb ldelf_scn_max num then none else get_elem? ldelf_syscall_table num

-- LDELF_RETURN and LDELF_PANIC.
pub record LdelfNumbers : Type 0 where
  pub return : ℕ
  pub panic : ℕ

-- Whether the thread returns to user mode, as in scall_handle_user_ta.
unfoldable pub scall_handle_ldelf :
    {S : Type 0}
    → LdelfNumbers
    → ℕ
    → (Option LdelfCall → List ℕ → S → ℕ × S)
    → Regs
    → S
    → Bool × Regs × S
unfolding get_ldelf_syscall_func
scall_handle_ldelf numbers error_generic do_call regs s =
    if ltb tee_svc_max_args regs.max_args
    then (true, record regs { retval = error_generic }, s)
    else (let (ret, s') = do_call (get_ldelf_syscall_func regs.scn) regs.args s in
        (
          not (regs.scn == numbers.return) && not (regs.scn == numbers.panic),
          record regs { retval = ret },
          s',
        ))

-- `save_panic_stack` and `set_return_regs` are scall_save_panic_stack and scall_set_sys_return_regs.
unfoldable pub scall_sys_return_helper :
    {R : Type 0} → (R → R) → (Bool → ℕ → R → R) → ℕ → Bool → ℕ → R → ℕ × R
scall_sys_return_helper save_panic_stack set_return_regs ret panic panic_code regs =
    (ret, set_return_regs panic panic_code (if panic then save_panic_stack regs else regs))

-- What a user's function of a trusted application is in the table of ldelf.
abbrev pub as_shared : Option Call → Option LdelfCall
as_shared none = none
as_shared (some c) = some (shared c)

shared_func : (n : ℕ) → n ≤ 2 → get_ldelf_syscall_func n ≡ as_shared (get_tee_syscall_func n)
unfolding get_ldelf_syscall_func get_tee_syscall_func ldelf_syscall_table tee_syscall_table
shared_func zero few = refl
shared_func (suc zero) few = refl
shared_func (suc (suc zero)) few = refl
shared_func (suc (suc (suc n))) few = absurd (omega arith)

-- The system calls with numbers up to 2 are those of a trusted application: where LDELF_RETURN and
-- LDELF_PANIC are its numbers of the return and the panic, ldelf gets from them the same result, and
-- goes on in user mode or not, as a trusted application with the same registers does.
pub scall_handle_ldelf-user_ta :
    {S : Type 0} (numbers : LdelfNumbers) (error_generic : ℕ)
    (do_call : Option LdelfCall → List ℕ → S → ℕ × S) (regs : Regs) (s : S)
    → numbers.return ≡ tee_scn Call.sys_return
    → numbers.panic ≡ tee_scn Call.panic
    → regs.scn ≤ 2
    → scall_handle_ldelf numbers error_generic do_call regs s
      ≡ scall_handle_user_ta error_generic (λ c. do_call (as_shared c)) regs s
unfolding scall_handle_ldelf scall_handle_user_ta tee_scn
scall_handle_ldelf-user_ta numbers error_generic do_call regs s return_same panic_same few =
    rw (return_same, panic_same, shared_func regs.scn few) refl
