-- ===== src/Disk/Success.antt =====
-- The calls on a disk where nothing fails.
use context_first_docs.Prelude.{
  String, none, some, [], ◌≡◌, arith, true, ◌==◌, string_eq, eq_iff, if◌then◌else◌, ok,
}
use context_first_docs.Prelude.Map
use context_first_docs.Disk.{
  read_to_string, read_dir, file_names, create_dir_all, write, rename, remove_file, remove_dir_all,
  FilePath, Disk, find, dir_exists,
}
use context_first_docs.Disk.Files.{same_path, contains_key-adjust, find-drop_file}

contains_key-insert :
    {V : Type 0} (k : String) (v : V) (m : Map.Map V) → Map.contains_key k (Map.insert k v m) ≡ true
unfolding Map.contains_key
contains_key-insert k v m = ground (arith, Map.get-insert k k v m, eq_iff k k)

module _ (d : Disk) (calm : d.faults ≡ []) where
  pub create_dir_all-succeeds :
      (dir : String)
      → ((create_dir_all dir d).0 ≡ ok tt)
        × ((create_dir_all dir d).1.faults ≡ [])
        × (dir_exists dir (create_dir_all dir d).1 ≡ true)
  unfolding create_dir_all
  create_dir_all-succeeds dir = ground (arith, contains_key-insert dir [] d.dirs)

  pub write-succeeds :
      (p : FilePath) (content : String)
      → dir_exists p.dir d ≡ true
      → ((write p content d).0 ≡ ok tt)
        × ((write p content d).1.faults ≡ [])
        × (dir_exists p.dir (write p content d).1 ≡ true)
  unfolding write
  write-succeeds p content there =
      ground (arith, contains_key-adjust p.dir p.dir (Map.insert p.name content) d.dirs)

  pub rename-succeeds :
      (p to : FilePath) {content : String}
      → find p d ≡ some content
      → dir_exists to.dir d ≡ true
      → ((rename p to d).0 ≡ ok tt) × ((rename p to d).1.faults ≡ [])
  unfolding rename
  rename-succeeds p to there open_dir = ground arith

  pub remove_file-faults : (p : FilePath) → (remove_file p d).1.faults ≡ []
  unfolding remove_file
  remove_file-faults p = ground arith

  pub remove_dir_all-faults : (dir : String) → (remove_dir_all dir d).1.faults ≡ []
  unfolding remove_dir_all
  remove_dir_all-faults dir = ground arith

  pub remove_file-find :
      (p q : FilePath) → find q (remove_file p d).1 ≡ (if same_path p q then none else find q d)
  unfolding remove_file Map.contains_key
  remove_file-find p q =
      ground (arith, find-drop_file p q d, eq_iff p.dir q.dir, eq_iff p.name q.name)

  pub remove_dir_all-find :
      (dir : String) (q : FilePath)
      → find q (remove_dir_all dir d).1 ≡ (if dir == q.dir then none else find q d)
  unfolding remove_dir_all Map.contains_key Map.get
  remove_dir_all-find dir q = ground (arith, Map.get-remove dir q.dir d.dirs, eq_iff dir q.dir)

  pub read_to_string-calm :
      (p : FilePath) {content : String}
      → find p d ≡ some content
      → read_to_string p d ≡ (ok content, d)
  unfolding read_to_string
  read_to_string-calm p there = ground arith

  pub read_dir-calm :
      (dir : String) {files : Map.Map String}
      → Map.get dir d.dirs ≡ some files
      → read_dir dir d ≡ (ok (file_names files), d)
  unfolding read_dir
  read_dir-calm dir there = ground arith
