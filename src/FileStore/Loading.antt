-- ===== src/FileStore/Loading.antt =====
-- `new` and `load_from_disk` of server/src/store/file_store.rs.
use context_first_docs.Prelude.{
  String, Bool, Option, none, some, List, [], ◌∷◌, ok, err, Result, is_some_and, ◌==◌, string_eq,
  if◌then◌else◌,
}
use context_first_docs.Prelude.Map
use context_first_docs.Prelude.Map.{Map}
use context_first_docs.Types.Node.{key}
use context_first_docs.Store.{StoreError}
use context_first_docs.Disk.{
  FilePath, Disk, extension, file_stem, dir_exists, file_exists, read_dir, read_to_string,
  create_dir_all,
}
use context_first_docs.FileStore.{
  Codec, FileStore, nodes_dir, proposals_dir, reviews_dir, audit_file, revision_file, Step, pure,
  ◌>>=◌, ◌>>◌, or_internal,
}

module _ {A : Type 0} (parse : String → Option A) (key_of : String → A → String) where
  -- `if let Ok(a) = serde_json::from_str(&content) { table.insert(key, a) }`
  abbrev pub insert_parsed : String → String → Map A → Map A
  insert_parsed name content m = elim (parse content) [
    | none ↦ m
    | some a ↦ Map.insert (key_of (file_stem name) a) a m
  ]

  abbrev pub is_json : String → Bool
  is_json name = is_some_and (extension name) (λ ext. ext == "json")

  -- One entry of a directory: a file that is no JSON or does not parse is passed over.
  abbrev pub load_entry : String → String → Map A → Step (Map A)
  load_entry dir name m =
      if is_json name
      then (or_internal "" (read_to_string (record { dir = dir; name = name })) >>= λ content.
          pure (insert_parsed name content m))
      else pure m

  unfoldable pub load_entries : String → List String → Map A → Step (Map A)
  load_entries dir [] m = pure m
  load_entries dir (name ∷ names) m = load_entry dir name m >>= load_entries dir names

  -- The files of a directory, if there is one.
  unfoldable pub load_dir : String → Step (Map A)
  unfolding load_entries
  load_dir dir d =
      if dir_exists dir d
      then (or_internal "" (read_dir dir) >>= λ names. load_entries dir names []) d
      else pure [] d

-- The value in a file, if there is one that parses.
unfoldable pub load_file : {A : Type 0} → (String → Option A) → FilePath → A → Step A
load_file parse path old d =
    if file_exists path d
    then (or_internal "" (read_to_string path) >>= λ content.
          pure (elim (parse content) [ none ↦ old | some a ↦ a ]))
        d
    else pure old d

abbrev with_disk : Result StoreError FileStore × Disk → Result StoreError FileStore × Disk
with_disk (err e, d) = (err e, d)
with_disk (ok s, d) = (ok (record s { disk = d }), d)

unfoldable pub load_from_disk : Codec → FileStore → Step FileStore
unfolding load_dir load_file
load_from_disk codec s = do
  nodes ← load_dir codec.node.parse (λ stem n. key n.id) (nodes_dir s.root)
  proposals ← load_dir codec.proposal.parse (λ stem p. p.id) (proposals_dir s.root)
  reviews ← load_dir codec.reviews.parse (λ stem rs. stem) (reviews_dir s.root)
  audit_log ← load_file codec.audit.parse (audit_file s.root) []
  revision_counter ← load_file codec.revision.parse (revision_file s.root) 0
  pure (record s {
    nodes = nodes;
    proposals = proposals;
    reviews = reviews;
    audit_log = audit_log;
    revision_counter = revision_counter;
  })

abbrev pub empty_store : String → Disk → FileStore
empty_store root d = record {
  root = root;
  nodes = [];
  proposals = [];
  reviews = [];
  audit_log = [];
  revision_counter = 0;
  disk = d;
}

-- `FileStore::new`, and the disk as it leaves it
unfoldable pub new : Codec → String → Step FileStore
unfolding load_from_disk
new codec root d = with_disk (
    (or_internal "cannot create data dir: " (create_dir_all root)
        >> load_from_disk codec (empty_store root d))
      d)
