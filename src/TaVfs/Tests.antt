-- ===== src/TaVfs/Tests.antt =====
-- A file in memory under the write buffer of optee_examples/tee_sqilte/ta/tee_vfs.c, and a write and
-- a read of it.
use tee_sqlite.Prelude.{
  get_elem?-ge, length-replicate, read_at, length-read_at, get_elem?-read_at, ℕ, ◌+◌, ◌-◌, ◌≡◌,
  refl, inl, List, [], ◌∷◌, some, arith, ltb, if◌then◌else◌, length, replicate,
}
use tee_sqlite.TaVfs.{
  sqlite_ok, sqlite_ioerr_short_read, Utee, DemoFile, buffer_size, flush_buffer, direct_write,
  read_result, demo_read, demo_sync, demo_close, demo_file_size,
}
use tee_sqlite.TaVfs.Overlay.{overlay}
use tee_sqlite.TaVfs.Buffer.{IsBuffered}
use tee_sqlite.TaVfs.Contents.{IsFile, logical}
use tee_sqlite.TaVfs.Durable.{IsStored, demo_close-content}
use tee_sqlite.TaVfs.Calls.{IsPlain}
use tee_sqlite.TaVfs.Read.{IsReadable}

-- A file of `size` bytes, at the offset `ofst`, and what is in stable storage.
pub record Disk : Type 0 where
  bytes : ℕ → ℕ
  size : ℕ
  ofst : ℕ
  synced : ℕ → ℕ

abbrev pub content : Disk → ℕ → ℕ
content d j = if ltb j d.size then d.bytes j else 0

abbrev pub pos : Disk → ℕ
pos d = d.ofst

abbrev pub durable : Disk → ℕ → ℕ
durable d = d.synced

abbrev disk_size : Disk → ℕ
disk_size d = d.size

abbrev at_most : ℕ → ℕ → ℕ
at_most m n = if ltb m n then m else n

abbrev at_least : ℕ → ℕ → ℕ
at_least m n = if ltb m n then n else m

abbrev pub memory_file : Utee Disk
memory_file = record {
  lseek = λ fd o d. (o, record d { ofst = o });
  write = λ fd bs d. (
    length bs,
    record {
      bytes = overlay d.ofst bs (content d);
      size = at_least d.size (d.ofst + length bs);
      ofst = d.ofst + length bs;
      synced = d.synced;
    },
  );
  read = λ fd n d.
      let r = at_most n (d.size - d.ofst) in
      (r, read_at (content d) d.ofst n, record d { ofst = d.ofst + r });
  fsync = λ fd d. (0, record d { synced = content d });
  close = λ fd d. d;
  filesize = λ fd d. (d.size, d);
}

write_content :
    (bs : List ℕ) (d : Disk) (j : ℕ)
    → content (memory_file.write 3 bs d).1 j ≡ overlay d.ofst bs (content d) j
unfolding overlay
write_content bs d j = ground (arith, get_elem?-ge bs (j - d.ofst))

memory_file-IsFile : IsFile memory_file 3 content pos
memory_file-IsFile = record {
  lseek_content = λ o s j. refl;
  lseek_pos = λ o s h. refl;
  write_content = λ bs s j h. write_content bs s j;
}

memory_file-IsReadable : IsReadable memory_file 3 content pos
memory_file-IsReadable = record {
  file = memory_file-IsFile;
  read_range = λ n s small. inl (ground arith);
  read_length = λ n s small. length-read_at (content s) s.ofst n;
  read_bytes = λ n k s small le lt. get_elem?-read_at (content s) s.ofst n k (omega arith);
  read_end = λ n k s small le lt. ground arith;
}

-- The bytes 5, 6 and 7 on the disk, the bytes 8 and 9 pending at offset 2.
abbrev pub disk : Disk
disk = record { bytes = λ j. j + 5; size = 3; ofst = 0; synced = λ j. 0 }

abbrev buffer : List ℕ
buffer = 8 ∷ 9 ∷ replicate 8190 0

abbrev journal : DemoFile
journal = record { fd = 3; a_buffer = some buffer; n_buffer = 2; i_buffer_ofst = 2 }

journal-IsBuffered : IsBuffered journal
unfolding buffer_size
journal-IsBuffered = record {
  whole = omega (arith, length-replicate {A = ℕ} 8190 0);
  within = omega arith;
}

flush_buffer-journal : (flush_buffer memory_file journal disk).0 ≡ sqlite_ok
unfolding flush_buffer direct_write
flush_buffer-journal = refl

-- Five bytes from offset 1 on: the file has three.
abbrev seen : List ℕ
seen = 6 ∷ 8 ∷ 9 ∷ 0 ∷ 0 ∷ []

demo_read-journal :
    ((demo_read memory_file journal 5 1 disk).0 ≡ sqlite_ioerr_short_read)
    × ((demo_read memory_file journal 5 1 disk).1 ≡ some seen)
unfolding demo_read flush_buffer direct_write read_result overlay
demo_read-journal = (refl, refl)

memory_file-IsStored : IsStored memory_file 3 content durable pos disk_size
memory_file-IsStored = record {
  synced = record { file = memory_file-IsFile; fsync_durable = λ s j h. refl };
  close_content = λ s j. refl;
  lseek_size = λ o s. refl;
  write_size = λ bs s h. refl;
  filesize_size = λ s. inl refl;
}

pub memory_file-IsPlain : IsPlain memory_file 3 content durable pos
memory_file-IsPlain = record {
  readable = memory_file-IsReadable;
  synced = memory_file-IsStored.synced;
  read_content = λ n s j small. refl;
  fsync_content = λ s j. refl;
}

calls_succeed :
    ((demo_sync memory_file journal disk).0 ≡ sqlite_ok)
    × ((demo_close memory_file journal disk).0 ≡ sqlite_ok)
    × ((demo_file_size memory_file journal disk).0 ≡ sqlite_ok)
unfolding demo_sync demo_close demo_file_size flush_buffer direct_write
calls_succeed = (refl, refl, refl)

demo_close-content_example :
    content (demo_close memory_file journal disk).1 3
    ≡ logical memory_file content pos journal disk 3
demo_close-content_example =
    demo_close-content memory_file content durable pos disk_size journal disk 3 memory_file-IsStored
      calls_succeed.1
