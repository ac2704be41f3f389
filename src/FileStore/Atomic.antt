-- ===== src/FileStore/Atomic.antt =====
-- What `atomic_write` of server/src/store/file_store.rs leaves on the disk.
use context_first_docs.Prelude.{
  String, some, ◌≡◌, arith, false, ◌&&◌, string_eq, if◌then◌else◌, Result-cases, inl, inr,
}
use context_first_docs.Disk.{FilePath, Disk, find, with_extension, create_dir_all, write}
use context_first_docs.Disk.Files.{
  same_path, is_ok, create_dir_all-find, write-find, write-written, rename-find,
}
use context_first_docs.FileStore.{atomic_write}

-- Whatever calls of the disk fail, an atomic write leaves every file but the temporary one as it
-- was, except that the file itself has the new content where the write succeeds.
pub atomic_write-find :
    (path q : FilePath) (content : String) (d : Disk)
    → same_path (with_extension "tmp" path) q ≡ false
    → find q (atomic_write path content d).1 ≡ (
        if same_path path q && is_ok (atomic_write path content d).0
        then some content
        else find q d)
unfolding atomic_write
atomic_write-find path q content d other =
    let tmp = with_extension "tmp" path in
    let made = (create_dir_all path.dir d).1 in
    let written = (write tmp content made).1 in
    let same : find q made ≡ find q d = create_dir_all-find path.dir q d in
    let same' : find q written ≡ find q made = write-find tmp q content made other in
    elim (Result-cases (create_dir_all path.dir d).0) [
      | inr (e, bad) ↦ ground arith
      | inl (done, good) ↦ elim (Result-cases (write tmp content made).0) [
        | inr (e, bad) ↦ ground arith
        | inl (done', good') ↦ ground (
          arith,
          rename-find tmp path q written {content = content}
              (write-written tmp q content made good') other,
        )
      ]
    ]
