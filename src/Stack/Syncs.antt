-- ===== src/Stack/Syncs.antt =====
-- A sync of SQLite from tee_vfs.c through the secure kernel and the supplicant to stable storage.
use tee_sqlite.Prelude.{ℕ, ◌≡◌, ◌<◌, ◌^◌, sym, ap, ◌∙◌, List}
use tee_sqlite.Vfs.Libc.{Libc, Call}
use tee_sqlite.Core.{Rpc}
use tee_sqlite.Core.Link.{Link, IsConnected}
use tee_sqlite.Core.Reach.{fsync_value, direct, issue, issue-direct, Fits}
use tee_sqlite.Core.Values.{syscall_vfs_fsync}
use tee_sqlite.TaVfs.Durable.{IsDurable}
use tee_sqlite.Stack.{core_utee}
use tee_sqlite.Stack.Laws.{IsPosix, IsSharing}
use tee_sqlite.Stack.Files.{content_of, pos_of, core_utee-IsFile}

-- What POSIX says of fsync in the supplicant: its result is an `int`, and where it is 0 the contents are
-- in stable storage.
pub record IsPosixSync {W : Type 0} (os : Libc W) (fd : ℕ) (content durable : W → ℕ → ℕ)
    : Type 0 where
  pub fsync_fits : (w : W) → Fits (fsync_value fd) (os.call (Call.fsync fd) w).0
  pub fsync_durable :
      (w : W) (j : ℕ)
      → (os.call (Call.fsync fd) w).0 ≡ 0
      → durable (os.call (Call.fsync fd) w).2 j ≡ content w j

module _ {S W : Type 0} (rpc : Rpc S) (os : Libc W) (link : Link S W)
    (connected : IsConnected rpc os link) (untouched : List ℕ) (content : W → ℕ → ℕ) (pos : W → ℕ)
    (bytes : W → ℕ → ℕ → List ℕ) (sharing : IsSharing rpc link content pos bytes)
    (durable : W → ℕ → ℕ) where
  abbrev pub durable_of : S → ℕ → ℕ
  durable_of s = durable (link.world s)

  pub fsync_end :
      (fd : ℕ) (s : S)
      → fd < 2 ^ 32
      → IsPosixSync os fd content durable
      → syscall_vfs_fsync rpc fd s ≡ (
        (os.call (Call.fsync fd) (link.world s)).0,
        link.with_world (os.call (Call.fsync fd) (link.world s)).2 s,
      )
  unfolding issue direct
  fsync_end fd s word sync =
      issue-direct rpc os link connected (fsync_value fd) s word (sync.fsync_fits (link.world s))

  pub core_utee-IsDurable :
      (fd : ℕ)
      → IsPosix os fd content pos bytes
      → IsPosixSync os fd content durable
      → fd < 2 ^ 32
      → IsDurable
          (core_utee rpc untouched)
          fd
          (content_of rpc os link connected untouched content pos bytes sharing)
          durable_of
          (pos_of rpc os link connected untouched content pos bytes sharing)
  unfolding core_utee
  core_utee-IsDurable fd posix sync word = record {
    file = core_utee-IsFile rpc os link connected untouched content pos bytes sharing fd posix word;
    fsync_durable = λ s j h.
        let e = fsync_end fd s word sync in
        ap (λ (r : ℕ × S). durable (link.world r.1) j) e
        ∙ (ap (λ w. durable w j) (sharing.part _ s)
            ∙ sync.fsync_durable (link.world s) j (ap (λ (r : ℕ × S). r.0) (sym e) ∙ h));
  }
