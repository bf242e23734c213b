-- ===== src/TaVfs/Write.antt =====
-- demoWrite of optee_examples/tee_sqilte/ta/tee_vfs.c.
use tee_sqlite.Prelude.{
  ℕ, zero, suc, ◌+◌, ◌-◌, List, [], ◌∷◌, ◌++◌, none, some, Bool, ◌==◌, ◌||◌, if◌then◌else◌, take,
  drop, length, ltb, not,
}
use tee_sqlite.TaVfs.{
  Rc, sqlite_ok, Utee, DemoFile, bytes_of, buffer_size, flush_buffer, direct_write,
}

-- The end of a write: a result with the file and the state, or an assertion that fails. The loop
-- has fuel, and ends with `out_of_fuel` without.
pub data Written (S : Type 0) : Type 0 where
  returned : Rc → DemoFile → S → Written S
  assertion_failed out_of_fuel : Written S

-- The condition to flush first.
unfoldable pub must_flush : DemoFile → ℕ → Bool
must_flush p i = p.n_buffer == buffer_size || not (p.i_buffer_ofst + p.n_buffer == i)

-- `nCopy`, of `n` bytes.
unfoldable pub copy_size : DemoFile → ℕ → ℕ
copy_size p n = let room = buffer_size - p.n_buffer in if ltb n room then n else room

-- memcpy(&p->aBuffer[p->nBuffer], z, nCopy), with the updates of the offset and the count.
unfoldable pub fill : DemoFile → List ℕ → ℕ → DemoFile
fill p z i =
    let k = copy_size p (length z) in
    record p {
      a_buffer =
          some (take p.n_buffer (bytes_of p) ++ (take k z ++ drop (p.n_buffer + k) (bytes_of p)));
      n_buffer = p.n_buffer + k;
      i_buffer_ofst = i - p.n_buffer;
    }

module _ {S : Type 0} (u : Utee S) where
  -- The flush at the head of a round.
  unfoldable pub flush_if_needed : DemoFile → ℕ → S → Rc × DemoFile × S
  flush_if_needed p i s = if must_flush p i then flush_buffer u p s else (sqlite_ok, p, s)

  -- `while (n > 0)`: `z` are the `n` bytes left.
  unfoldable pub write_loop : ℕ → DemoFile → List ℕ → ℕ → S → Written S
  write_loop zero p z i s = out_of_fuel
  write_loop (suc fuel) p [] i s = returned sqlite_ok p s
  write_loop (suc fuel) p (b ∷ z) i s =
      let (rc, p1, s1) = flush_if_needed p i s in
      let k = copy_size p1 (length (b ∷ z)) in
      let rest = write_loop fuel (fill p1 (b ∷ z) i) (drop k (b ∷ z)) (i + k) s1 in
      elim rc [
        | sqlite_ok ↦
            if p1.n_buffer == 0 || p1.i_buffer_ofst + p1.n_buffer == i
            then rest
            else assertion_failed
        | failed ↦ returned failed p1 s1
      ]

  -- A round more than there are bytes is fuel enough.
  unfoldable pub demo_write : DemoFile → List ℕ → ℕ → S → Written S
  demo_write p z_buf i_ofst s = elim p.a_buffer [
    | some buf ↦ write_loop (length z_buf + 1) p z_buf i_ofst s
    | none ↦ let (rc, s') = direct_write u p z_buf i_ofst s in returned rc p s'
  ]
