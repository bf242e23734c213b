-- ===== src/Stack/Reads.antt =====
-- A read of SQLite from the file through the supplicant and the secure kernel to tee_vfs.c.
use tee_sqlite.Prelude.{
  ℕ, ◌+◌, ◌≡◌, ◌<◌, ◌≤◌, ◌^◌, ◌⊎◌, sym, ap, subst, ◌∙◌, List, Option, some, arith, length,
  replicate, get_elem?, minus_one64,
}
use tee_sqlite.Vfs.Libc.{Libc, Call}
use tee_sqlite.Core.{Mobj, Rpc}
use tee_sqlite.Core.Link.{Link, IsConnected}
use tee_sqlite.Core.BufferReach.{cleared, syscall_vfs_read-direct}
use tee_sqlite.TaVfs.{Utee}
use tee_sqlite.TaVfs.Read.{IsReadable}
use tee_sqlite.Stack.{core_utee, filled_by}
use tee_sqlite.Stack.Laws.{IsPosix, IsPosixRead, IsSharing, ReadPayload}
use tee_sqlite.Stack.Files.{content_of, pos_of, core_utee-IsFile}

-- A call of read: what it gives is what the C library does behind it.
record Served {S W : Type 0} (u : Utee S) (os : Libc W) (bytes : W → ℕ → ℕ → List ℕ) (fd n : ℕ)
    (s : S) (w : W) : Type 0 where
  va : ℕ
  count : (u.read fd n s).0 ≡ (os.call (Call.read fd va n) w).0
  filled : (u.read fd n s).1 ≡ bytes (os.call (Call.read fd va n) w).2 va n
  whole : length (u.read fd n s).1 ≡ n

module _ {S W : Type 0} (rpc : Rpc S) (os : Libc W) (link : Link S W)
    (connected : IsConnected rpc os link) (untouched : List ℕ) (content : W → ℕ → ℕ) (pos : W → ℕ)
    (bytes : W → ℕ → ℕ → List ℕ) (sharing : IsSharing rpc link content pos bytes) where
  -- The state of the supplicant's process when it reads.
  abbrev before : Mobj → ℕ → S → W
  before m n s = link.world (cleared rpc os link m n s)

  content-before :
      (m : Mobj) (n : ℕ) (s : S) (j : ℕ) → content (before m n s) j ≡ content (link.world s) j
  content-before m n s j = sharing.copy_content m (replicate n 0) _ j ∙ sharing.alloc_content n s j

  pos-before : (m : Mobj) (n : ℕ) (s : S) → pos (before m n s) ≡ pos (link.world s)
  pos-before m n s = sharing.copy_pos m (replicate n 0) _ ∙ sharing.alloc_pos n s

  byte-before :
      (m : Mobj) (n k : ℕ) (s : S)
      → content (before m n s) (pos (before m n s) + k)
        ≡ content (link.world s) (pos (link.world s) + k)
  byte-before m n k s =
      content-before m n s _ ∙ ap (λ o. content (link.world s) (o + k)) (pos-before m n s)

  module _ (fd : ℕ) (word : fd < 2 ^ 32) where
    read_served :
        (n : ℕ) (s : S) (r : ReadPayload rpc os link bytes fd n s)
        → Served (core_utee rpc untouched) os bytes fd n s (before r.payload n s)
    unfolding core_utee
    read_served n s r =
        let e =
          syscall_vfs_read-direct rpc os link connected fd n s r.payload r.memory r.there r.fits
            word r.found in
        record {
          va = r.memory.buffer;
          count = ap (λ (z : (ℕ × Option (List ℕ)) × S). z.0.0) e;
          filled = ap (λ (z : (ℕ × Option (List ℕ)) × S). filled_by untouched z.0.1) e ∙ r.shows _;
          whole =
              ap (λ (z : (ℕ × Option (List ℕ)) × S). length (filled_by untouched z.0.1)) e
              ∙ r.whole _;
        }

    -- Where read leaves the contents, so does the system call.
    pub read_content :
        (n : ℕ) (s : S) (j : ℕ)
        → ReadPayload rpc os link bytes fd n s
        → ((va : ℕ) (w : W) → content (os.call (Call.read fd va n) w).2 j ≡ content w j)
        → content (link.world ((core_utee rpc untouched).read fd n s).2) j
          ≡ content (link.world s) j
    unfolding core_utee
    read_content n s j r keeps =
        ap (λ (z : (ℕ × Option (List ℕ)) × S). content (link.world z.1) j)
          (syscall_vfs_read-direct rpc os link connected fd n s r.payload r.memory r.there r.fits
            word r.found)
        ∙ sharing.free_content r.payload _ j
        ∙ ap (λ w. content w j) (sharing.part _ _)
        ∙ keeps r.memory.buffer (before r.payload n s)
        ∙ content-before r.payload n s j

    module _ (posix : IsPosix os fd content pos bytes) (reads : IsPosixRead os fd content pos bytes)
        (payloads : (n : ℕ) (s : S) → n < 2 ^ 31 → ReadPayload rpc os link bytes fd n s) where
      served :
          (n : ℕ) (s : S) (small : n < 2 ^ 31)
          → Served
              (core_utee rpc untouched)
              os
              bytes
              fd
              n
              s
              (before (payloads n s small).payload n s)
      served n s small = read_served n s (payloads n s small)

      pub core_utee-IsReadable :
          IsReadable
            (core_utee rpc untouched)
            fd
            (content_of rpc os link connected untouched content pos bytes sharing)
            (pos_of rpc os link connected untouched content pos bytes sharing)
      core_utee-IsReadable = record {
        file =
            core_utee-IsFile rpc os link connected untouched content pos bytes sharing fd posix
              word;
        read_range = λ n s small.
            let v = served n s small in
            subst (λ c. (c ≤ n) ⊎ (c ≡ minus_one64)) (sym v.count)
              (reads.read_range v.va n _ small);
        read_length = λ n s small. (served n s small).whole;
        read_bytes = λ n k s small le lt.
            let v = served n s small in
            let m = (payloads n s small).payload in
            ap (λ l. get_elem? l k) v.filled
            ∙ (reads.read_bytes v.va n k _ small (omega (arith, v.count, le))
                  (omega (arith, v.count, lt))
                ∙ ap some (byte-before m n k s));
        read_end = λ n k s small le lt.
            let v = served n s small in
            let m = (payloads n s small).payload in
            sym (byte-before m n k s)
            ∙ reads.read_end v.va n k _ small (omega (arith, v.count, le)) lt;
      }
