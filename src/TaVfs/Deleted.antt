-- ===== src/TaVfs/Deleted.antt =====
-- demoDelete of optee_examples/tee_sqilte/ta/tee_vfs.c: that the file is gone, and stays so.
use tee_sqlite.Prelude.{
  ℕ, ◌≡◌, ◌≢◌, refl, subst, none, [], ◌∷◌, ◌++◌, ◌∙◌, Bool, true, false, ◌==◌, List, some,
  if◌then◌else◌, arith, Bool-cases, Option-cases, inl, inr,
}
use tee_sqlite.TaVfs.{sqlite_ok, Utee}
use tee_sqlite.TaVfs.Names.{
  Paths, before_last_slash, max_path_name, enoent, is_negative, sync_directory, demo_delete,
}

-- A name without a slash.
abbrev pub IsBase : List ℕ → Type 0
IsBase [] = Unit {0}
IsBase (b ∷ bs) = (b ≢ 47) × IsBase bs

before_last_slash-IsBase : (base : List ℕ) → IsBase base → before_last_slash base ≡ none
unfolding before_last_slash
before_last_slash-IsBase [] h = refl
before_last_slash-IsBase (b ∷ bs) h = ground (arith, before_last_slash-IsBase bs h.1)

before_last_slash-append :
    (dir base : List ℕ) → IsBase base → before_last_slash (dir ++ (47 ∷ base)) ≡ some dir
unfolding before_last_slash
before_last_slash-append [] base h = ground (arith, before_last_slash-IsBase base h)
before_last_slash-append (b ∷ dir) base h = rw (before_last_slash-append dir base h) refl

-- What POSIX says of names: `exists` is whether a file has the name, `stored` whether one has it in
-- stable storage, and `directory` the name behind a descriptor.
pub record IsDirectories {S : Type 0} (n : Paths S) (u : Utee S) (exists stored : S → List ℕ → Bool)
    (directory : S → ℕ → List ℕ) : Type 0 where
  pub unlinked : (q : List ℕ) (s : S) → (n.unlink q s).0 ≡ 0 → exists (n.unlink q s).2 q ≡ false
  pub missing :
      (q : List ℕ) (s : S)
      → (n.unlink q s).0 ≢ 0
      → (n.unlink q s).1 ≡ enoent
      → exists (n.unlink q s).2 q ≡ false
  pub open_creates_none : (d q : List ℕ) (s : S) → exists (n.open_path d 0 0 s).1 q ≡ exists s q
  pub opens :
      (d : List ℕ) (s : S)
      → is_negative (n.open_path d 0 0 s).0 ≡ false
      → directory (n.open_path d 0 0 s).1 (n.open_path d 0 0 s).0 ≡ d
  pub fsync_creates_none : (fd : ℕ) (q : List ℕ) (s : S) → exists (u.fsync fd s).1 q ≡ exists s q
  pub fsync_stores :
      (fd : ℕ) (base : List ℕ) (s : S)
      → (u.fsync fd s).0 ≡ 0
      → IsBase base
      → stored (u.fsync fd s).1 (directory s fd ++ (47 ∷ base))
        ≡ exists s (directory s fd ++ (47 ∷ base))
  pub close_creates_none : (fd : ℕ) (q : List ℕ) (s : S) → exists (u.close fd s) q ≡ exists s q
  pub close_stored : (fd : ℕ) (q : List ℕ) (s : S) → stored (u.close fd s) q ≡ stored s q

module _ {S : Type 0} (n : Paths S) (u : Utee S) (exists stored : S → List ℕ → Bool)
    (directory : S → ℕ → List ℕ) (laws : IsDirectories n u exists stored directory) where
  sync_directory-exists : (d q : List ℕ) (s : S) → exists (sync_directory n u d s).1 q ≡ exists s q
  unfolding sync_directory
  sync_directory-exists d q s =
      let s1 = (n.open_path d 0 0 s).1 in
      let fd = (n.open_path d 0 0 s).0 in
      ground (
        arith,
        laws.open_creates_none d q s,
        laws.fsync_creates_none fd q s1,
        laws.close_creates_none fd q (u.fsync fd s1).1,
      )

  sync_directory-stored :
      (d base : List ℕ) (s : S)
      → IsBase base
      → (sync_directory n u d s).0 ≡ true
      → stored (sync_directory n u d s).1 (d ++ (47 ∷ base)) ≡ exists s (d ++ (47 ∷ base))
  unfolding sync_directory
  sync_directory-stored d base s plain done =
      let q = d ++ (47 ∷ base) in
      let s1 = (n.open_path d 0 0 s).1 in
      let fd = (n.open_path d 0 0 s).0 in
      elim (Bool-cases (is_negative fd)) [
        | inl failed ↦ absurd (ground arith)
        | inr there ↦
            let synced : (u.fsync fd s1).0 ≡ 0 = ground arith in
            let held : stored (u.fsync fd s1).1 q ≡ exists s1 q =
              subst
                (λ h. stored (u.fsync fd s1).1 (h ++ (47 ∷ base)) ≡ exists s1 (h ++ (47 ∷ base)))
                (laws.opens d s there) (laws.fsync_stores fd base s1 synced plain) in
            rw (there, if◌then◌else◌)
              (laws.close_stored fd q (u.fsync fd s1).1 ∙ (held ∙ laws.open_creates_none d q s))
      ]

  -- Where demoDelete returns SQLITE_OK, no file has the name.
  pub demo_delete-exists :
      (path : List ℕ) (dir_sync : Bool) (s : S)
      → (demo_delete n u path dir_sync s).0 ≡ sqlite_ok
      → exists (demo_delete n u path dir_sync s).1 path ≡ false
  unfolding demo_delete
  demo_delete-exists path dir_sync s ok =
      let s1 = (n.unlink path s).2 in
      elim (Bool-cases ((n.unlink path s).0 == 0)) [
        | inl removed ↦
            let gone = laws.unlinked path s (ground arith) in
            elim (Option-cases (before_last_slash (n.snprintf max_path_name path))) [
              | inl bare ↦ ground arith
              | inr (dir, within) ↦ ground (arith, sync_directory-exists dir path s1)
            ]
        | inr refused ↦ elim (Bool-cases ((n.unlink path s).1 == enoent)) [
          | inl no_file ↦
              let gone = laws.missing path s (λ e. ground arith) (ground arith) in
              rw (refused, no_file, if◌then◌else◌) gone
          | inr other ↦ absurd (ground arith)
        ]
      ]

  -- Where demoDelete with dirSync unlinks a file, whose name is that of a directory, a slash and a
  -- name without one, and fits its buffer, and returns SQLITE_OK, no file has the name, and none has it
  -- in stable storage. The calls by name, fsync of that directory and close are taken to do what POSIX
  -- says.
  pub demo_delete-stored :
      (dir base : List ℕ) (s : S)
      → let path = dir ++ (47 ∷ base) in
        IsBase base
        → (n.unlink path s).0 ≡ 0
        → n.snprintf max_path_name path ≡ path
        → (demo_delete n u path true s).0 ≡ sqlite_ok
        → (exists (demo_delete n u path true s).1 path ≡ false)
          × (stored (demo_delete n u path true s).1 path ≡ false)
  unfolding demo_delete
  demo_delete-stored dir base s plain removed fits ok =
      let path = dir ++ (47 ∷ base) in
      let within = before_last_slash-append dir base plain in
      let s1 = (n.unlink path s).2 in
      let gone = laws.unlinked path s removed in
      elim (Bool-cases (sync_directory n u dir s1).0) [
        | inr failed ↦ absurd (ground arith)
        | inl done ↦
            rw (removed, fits, within)
              (
                sync_directory-exists dir path s1 ∙ gone,
                sync_directory-stored dir base s1 plain done ∙ gone,
              )
      ]
