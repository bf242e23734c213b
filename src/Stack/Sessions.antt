-- ===== src/Stack/Sessions.antt =====
-- Calls of SQLite one after the other from optee_examples/tee_sqilte/ta/tee_vfs.c through the secure
-- kernel and the supplicant to the file.
use tee_sqlite.Prelude.{ℕ, ◌≡◌, ◌<◌, ◌^◌, refl, ap, ◌∙◌, List}
use tee_sqlite.Vfs.Libc.{Libc, Call}
use tee_sqlite.Core.{Rpc}
use tee_sqlite.Core.Link.{Link, IsConnected}
use tee_sqlite.TaVfs.{DemoFile}
use tee_sqlite.TaVfs.Contents.{logical}
use tee_sqlite.TaVfs.Calls.{IsPlain, IsShaped}
use tee_sqlite.TaVfs.Sessions.{FileCall, AllSmall, Behaves, Behaves-IsOpen}
use tee_sqlite.Stack.{core_utee}
use tee_sqlite.Stack.Laws.{IsPosix, IsPosixRead, IsSharing, ReadPayload}
use tee_sqlite.Stack.Files.{content_of, pos_of}
use tee_sqlite.Stack.Reads.{read_content, core_utee-IsReadable}
use tee_sqlite.Stack.Syncs.{IsPosixSync, durable_of, fsync_end, core_utee-IsDurable}

-- What POSIX says besides: read and fsync leave the contents.
pub record KeepsContent {W : Type 0} (os : Libc W) (fd : ℕ) (content : W → ℕ → ℕ) : Type 0 where
  pub read_keeps :
      (va n : ℕ) (w : W) (j : ℕ)
      → n < 2 ^ 31
      → content (os.call (Call.read fd va n) w).2 j ≡ content w j
  pub fsync_keeps : (w : W) (j : ℕ) → content (os.call (Call.fsync fd) w).2 j ≡ content w j

module _ {S W : Type 0} (rpc : Rpc S) (os : Libc W) (link : Link S W)
    (connected : IsConnected rpc os link) (untouched : List ℕ) (content : W → ℕ → ℕ) (pos : W → ℕ)
    (bytes : W → ℕ → ℕ → List ℕ) (sharing : IsSharing rpc link content pos bytes)
    (durable : W → ℕ → ℕ) where
  -- The file as the trusted application sees it through the whole way.
  abbrev pub seen_content : S → ℕ → ℕ
  seen_content = content_of rpc os link connected untouched content pos bytes sharing

  abbrev pub seen_pos : S → ℕ
  seen_pos = pos_of rpc os link connected untouched content pos bytes sharing

  abbrev pub seen_durable : S → ℕ → ℕ
  seen_durable = durable_of rpc os link connected untouched content pos bytes sharing durable

  core_utee-IsPlain :
      (fd : ℕ)
      → fd < 2 ^ 32
      → IsPosix os fd content pos bytes
      → IsPosixRead os fd content pos bytes
      → IsPosixSync os fd content durable
      → KeepsContent os fd content
      → ((n : ℕ) (s : S) → n < 2 ^ 31 → ReadPayload rpc os link bytes fd n s)
      → IsPlain (core_utee rpc untouched) fd seen_content seen_durable seen_pos
  unfolding core_utee
  core_utee-IsPlain fd word posix reads syncs keeps payloads = record {
    readable =
        core_utee-IsReadable rpc os link connected untouched content pos bytes sharing fd word posix
          reads payloads;
    synced =
        core_utee-IsDurable rpc os link connected untouched content pos bytes sharing durable fd
          posix syncs word;
    read_content = λ n s j small.
        read_content rpc os link connected untouched content pos bytes sharing fd word n s j
          (payloads n s small) (λ va w. keeps.read_keeps va n w j small);
    fsync_content = λ s j.
        ap (λ (r : ℕ × S). content (link.world r.1) j)
          (fsync_end rpc os link connected untouched content pos bytes sharing durable fd s word
            syncs)
        ∙ ap (λ w. content w j) (sharing.part _ s)
        ∙ keeps.fsync_keeps (link.world s) j;
  }

  -- Any calls of SQLite one after the other on an open file of the trusted application, with a
  -- whole write buffer or without one, where each read asks for fewer than 2 ^ 31 bytes, through
  -- the system calls, the supplicant and its C library, refine an array of bytes up to the first
  -- call that fails: each demoWrite returns with no failed assertion, and where it returns
  -- SQLITE_OK it writes its bytes into the array at its offset; each demoRead that returns
  -- SQLITE_OK or SQLITE_IOERR_SHORT_READ gives exactly the array's bytes, with 0 past the end; each
  -- demoSync that returns SQLITE_OK leaves the array in stable storage; and after the last call the
  -- file, with the pending bytes over it, is the array. The way to the supplicant is taken to be as
  -- documented, payloads to be allocated, shared with it and in its list, and its lseek, write,
  -- read and fsync to do what POSIX says.
  pub core_utee-Behaves :
      (calls : List FileCall) (p : DemoFile) (s : S)
      → p.fd < 2 ^ 32
      → IsPosix os p.fd content pos bytes
      → IsPosixRead os p.fd content pos bytes
      → IsPosixSync os p.fd content durable
      → KeepsContent os p.fd content
      → ((n : ℕ) (s : S) → n < 2 ^ 31 → ReadPayload rpc os link bytes p.fd n s)
      → IsShaped p
      → AllSmall calls
      → Behaves
          (core_utee rpc untouched)
          seen_content
          seen_durable
          seen_pos
          calls
          p
          s
          (logical (core_utee rpc untouched) seen_content seen_pos p s)
  core_utee-Behaves calls p s word posix reads syncs keeps payloads shaped small =
      Behaves-IsOpen (core_utee rpc untouched) seen_content seen_durable seen_pos p.fd
        (core_utee-IsPlain p.fd word posix reads syncs keeps payloads) calls p s _ small
        (record { same_fd = refl; shaped = shaped; holds = λ j. refl })
