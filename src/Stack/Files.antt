-- ===== src/Stack/Files.antt =====
-- The system calls of optee_os/core/tee/tee_sqlite.c that tee_vfs.c makes on a file, through the
-- supplicant to the file of the normal world.
use tee_sqlite.Prelude.{ℕ, ◌≡◌, ◌<◌, ◌≤◌, ◌^◌, sym, ap, ◌∙◌, List, some, arith, length, replicate}
use tee_sqlite.Shm.Param.{param_to_va}
use tee_sqlite.Vfs.Libc.{Libc, Call}
use tee_sqlite.Core.{Mobj, Rpc, memref, dir_in}
use tee_sqlite.Core.Link.{Link, IsConnected}
use tee_sqlite.Core.Reach.{lseek_value, direct, issue, issue-direct}
use tee_sqlite.Core.BufferReach.{syscall_vfs_write-direct}
use tee_sqlite.Core.Values.{syscall_vfs_lseek}
use tee_sqlite.Core.Buffers.{syscall_vfs_write}
use tee_sqlite.TaVfs.Overlay.{overlay, overlay-ext}
use tee_sqlite.TaVfs.Contents.{IsFile}
use tee_sqlite.Stack.{core_utee, seek_set}
use tee_sqlite.Stack.Laws.{IsPosix, IsSharing, payload_with}

module _ {S W : Type 0} (rpc : Rpc S) (os : Libc W) (link : Link S W)
    (connected : IsConnected rpc os link) (untouched : List ℕ) (content : W → ℕ → ℕ) (pos : W → ℕ)
    (bytes : W → ℕ → ℕ → List ℕ) (sharing : IsSharing rpc link content pos bytes) where
  -- The file as seen from both worlds.
  abbrev pub content_of : S → ℕ → ℕ
  content_of s = content (link.world s)

  abbrev pub pos_of : S → ℕ
  pos_of s = pos (link.world s)

  module _ (fd : ℕ) (posix : IsPosix os fd content pos bytes) (word : fd < 2 ^ 32) where
    lseek_end :
        (o : ℕ) (s : S)
        → syscall_vfs_lseek rpc fd o seek_set s ≡ (
          (os.call (Call.lseek fd o seek_set) (link.world s)).0,
          link.with_world (os.call (Call.lseek fd o seek_set) (link.world s)).2 s,
        )
    unfolding issue direct
    lseek_end o s =
        issue-direct rpc os link connected (lseek_value fd o seek_set) s (word, omega arith) tt

    -- The state of the supplicant's process when it writes.
    abbrev before : Mobj → List ℕ → S → W
    before m bs s = link.world (payload_with rpc m bs s)

    abbrev write_call : Mobj → List ℕ → S → Call
    write_call m bs s =
        Call.write fd
          (param_to_va (link.encode (memref dir_in (some m) 0 0))
            (link.shms (payload_with rpc m bs s)))
          (length bs)

    write_end :
        (bs : List ℕ) (s : S) (m : Mobj)
        → (rpc.alloc_payload (length bs) s).0 ≡ some m
        → length bs ≤ m.size
        → syscall_vfs_write rpc fd bs s ≡ (
          (os.call (write_call m bs s) (before m bs s)).0,
          rpc.free_payload (some m) (
              link.with_world
                (os.call (write_call m bs s) (before m bs s)).2
                (payload_with rpc m bs s)),
        )
    write_end bs s m got fits =
        syscall_vfs_write-direct rpc os link connected fd bs s m got fits word
          (posix.write_count _ (length bs) (before m bs s))

    content-before :
        (m : Mobj) (bs : List ℕ) (s : S) (j : ℕ)
        → content (before m bs s) j ≡ content (link.world s) j
    content-before m bs s j =
        sharing.copy_content m bs _ j
        ∙ (sharing.copy_content m (replicate (length bs) 0) _ j
            ∙ sharing.alloc_content (length bs) s j)

    pos-before : (m : Mobj) (bs : List ℕ) (s : S) → pos (before m bs s) ≡ pos (link.world s)
    pos-before m bs s =
        sharing.copy_pos m bs _
        ∙ (sharing.copy_pos m (replicate (length bs) 0) _ ∙ sharing.alloc_pos (length bs) s)

    write_content :
        (bs : List ℕ) (s : S) (j : ℕ)
        → (syscall_vfs_write rpc fd bs s).0 ≡ length bs
        → content (link.world (syscall_vfs_write rpc fd bs s).1) j
          ≡ overlay (pos (link.world s)) bs (content (link.world s)) j
    write_content bs s j h =
        let (m, got, fits) = sharing.there (length bs) s in
        let e = write_end bs s m got fits in
        let w = before m bs s in
        let call = write_call m bs s in
        let done : (os.call call w).0 ≡ length bs = ap (λ (r : ℕ × S). r.0) (sym e) ∙ h in
        ap (λ (r : ℕ × S). content (link.world r.1) j) e
        ∙ (sharing.free_content m _ j
            ∙ (ap (λ v. content v j) (sharing.part _ _)
                ∙ (posix.write_content _ (length bs) w j done
                    ∙ (ap (λ l. overlay (pos w) l (content w) j) (sharing.shows m bs s got)
                        ∙ (ap (λ o. overlay o bs (content w) j) (pos-before m bs s)
                            ∙ overlay-ext (pos (link.world s)) bs (content w)
                                (content (link.world s)) j (content-before m bs s j))))))

    -- The system calls behave on the descriptor as POSIX says of the calls of the C library.
    pub core_utee-IsFile : IsFile (core_utee rpc untouched) fd content_of pos_of
    unfolding core_utee
    core_utee-IsFile = record {
      lseek_content = λ o s j.
          ap (λ (r : ℕ × S). content (link.world r.1) j) (lseek_end o s)
          ∙ (ap (λ w. content w j) (sharing.part _ s) ∙ posix.lseek_content o (link.world s) j);
      lseek_pos = λ o s h.
          ap (λ (r : ℕ × S). pos (link.world r.1)) (lseek_end o s)
          ∙ (ap pos (sharing.part _ s)
              ∙ posix.lseek_pos o (link.world s)
                  (ap (λ (r : ℕ × S). r.0) (sym (lseek_end o s)) ∙ h));
      write_content = write_content;
    }
