-- ===== src/FileStore/Commands/Clearing.antt =====
-- What `reset` of server/src/store/file_store.rs leaves on the disk.
use Prim.Native.String.{◌++◌}
use context_first_docs.Prelude.{
  String, none, [], ◌≡◌, refl, ◌∙◌, arith, false, ◌==◌, string_eq, eq_iff, if◌then◌else◌,
}
use context_first_docs.Prelude.Map
use context_first_docs.Disk.{FilePath, find, remove_dir_all}
use context_first_docs.Disk.Files.{same_path}
use context_first_docs.Disk.Success.{
  remove_file-faults, remove_dir_all-faults, remove_file-find, remove_dir_all-find,
}
use context_first_docs.Disk.Tidy.{remove_file-Tidy, remove_dir_all-Tidy}
use context_first_docs.FileStore.{
  Codec, FileStore, nodes_dir, proposals_dir, reviews_dir, audit_file, revision_file,
}
use context_first_docs.FileStore.Calls
use context_first_docs.FileStore.Consistent.{Mirrors, below, names_differ}

module _ (s : FileStore) (calm : s.disk.faults ≡ []) where
  -- The files of the three directories and the counter are gone, and no other.
  reset-find :
      (q : FilePath)
      → find q (Calls.reset s).1.disk ≡ (
          if same_path (revision_file s.root) q
          then none
          else if reviews_dir s.root == q.dir
          then none
          else if proposals_dir s.root == q.dir
          then none
          else if nodes_dir s.root == q.dir
          then none
          else find q s.disk)
  unfolding Calls.reset
  reset-find q =
      let d1 = (remove_dir_all (nodes_dir s.root) s.disk).1 in
      let d2 = (remove_dir_all (proposals_dir s.root) d1).1 in
      let d3 = (remove_dir_all (reviews_dir s.root) d2).1 in
      let calm1 = remove_dir_all-faults s.disk calm (nodes_dir s.root) in
      let calm2 = remove_dir_all-faults d1 calm1 (proposals_dir s.root) in
      let calm3 = remove_dir_all-faults d2 calm2 (reviews_dir s.root) in
      rw
        (
          remove_file-find d3 calm3 (revision_file s.root) q,
          remove_dir_all-find d2 calm2 (reviews_dir s.root) q,
          remove_dir_all-find d1 calm1 (proposals_dir s.root) q,
          remove_dir_all-find s.disk calm (nodes_dir s.root) q,
        )
        refl

  -- The log stays.
  reset-find-audit_file :
      find (audit_file s.root) (Calls.reset s).1.disk ≡ find (audit_file s.root) s.disk
  reset-find-audit_file =
      let not_below : (name : String) → (name == "") ≡ false → (s.root ++ name == s.root) ≡ false =
        λ name h.
          ground
            (arith, eq_iff (s.root ++ name) s.root, below s.root name (names_differ name "" h)) in
      reset-find (audit_file s.root)
      ∙ rw (not_below "/reviews" refl, not_below "/proposals" refl, not_below "/nodes" refl)
          (ground (arith, eq_iff s.root s.root))

  pub reset-faults : (Calls.reset s).1.disk.faults ≡ []
  unfolding Calls.reset
  reset-faults =
      remove_file-faults _
        (remove_dir_all-faults _
          (remove_dir_all-faults _ (remove_dir_all-faults s.disk calm (nodes_dir s.root))
            (proposals_dir s.root))
          (reviews_dir s.root))
        (revision_file s.root)

  pub reset-Mirrors : (codec : Codec) → Mirrors codec s → Mirrors codec (Calls.reset s).1
  unfolding Calls.reset Map.get
  reset-Mirrors codec ms = record {
    nodes = record {
      shown = λ k some_name.
          rw (reset-find _) (ground (arith, eq_iff (nodes_dir s.root) (nodes_dir s.root)));
      named = λ k a e. cc;
    };
    proposals = record {
      shown = λ k some_name.
          rw (reset-find _) (ground (arith, eq_iff (proposals_dir s.root) (proposals_dir s.root)));
      named = λ k a e. cc;
    };
    reviews = record {
      shown = λ k some_name.
          rw (reset-find _) (ground (arith, eq_iff (reviews_dir s.root) (reviews_dir s.root)));
      named = λ k a e. cc;
    };
    audit = rw (reset-find-audit_file) ms.audit;
    revision = rw (reset-find (revision_file s.root)) (ground (arith, eq_iff s.root s.root));
    tidy =
        remove_file-Tidy _
          (remove_dir_all-Tidy _
            (remove_dir_all-Tidy _ (remove_dir_all-Tidy s.disk ms.tidy (nodes_dir s.root))
              (proposals_dir s.root))
            (reviews_dir s.root))
          (revision_file s.root);
  }
