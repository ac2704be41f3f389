-- ===== src/FileStore/Blocked.antt =====
-- What `apply_proposal` of server/src/store/file_store.rs has done when it blocks.
use context_first_docs.Prelude.{
  ℕ, String, none, some, List, [], ◌∷◌, ◌≡◌, ◌≢◌, refl, ap, ◌∙◌, arith, ◌==◌, string_eq, eq_iff,
  if◌then◌else◌, ok, Option-cases, inl, inr, Result-cases, All,
}
use context_first_docs.Prelude.Map
use context_first_docs.Types.Node.{ContextNode, key}
use context_first_docs.Types.Proposal.{
  status_eq, UpdateChanges, Operation, create, update, delete, status_change,
}
use context_first_docs.Runtime.{Runtime}
use context_first_docs.Disk.{FilePath, find, remove_file}
use context_first_docs.Disk.Files.{same_path}
use context_first_docs.Disk.Names.{Plain, join-json}
use context_first_docs.Disk.Success.{remove_file-find, remove_file-faults}
use context_first_docs.Disk.Tidy.{remove_file-Tidy}
use context_first_docs.FileStore.{
  Codec, FileStore, nodes_dir, audit_file, revision_file, save_node, json_file,
}
use context_first_docs.FileStore.Apply.{
  Nodes, apply_operation, apply_operations, hashed, change, changed,
}
use context_first_docs.FileStore.Saving.{save-faults}
use context_first_docs.FileStore.Mirror.{json_in, same_path-json}
use context_first_docs.FileStore.Consistent.{
  Mirrors, ReadsBack, Shows-agree, apart, below, names_differ,
}
use context_first_docs.FileStore.Consistent.Saves.{save_node-Mirrors}

-- The nodes that an operation creates or deletes have names of files.
abbrev pub HasPlainName : Operation → Type 0
HasPlainName (create id order node) = Plain (key node.id)
HasPlainName (delete id order node_id reason) = Plain (key node_id)
HasPlainName _ = Unit

abbrev pub with_nodes : Nodes → FileStore → FileStore
with_nodes (nodes, d) s = record s { nodes = nodes; disk = d }

-- The disk has what the memory has, and nothing fails.
pub record Sound (codec : Codec) (s : FileStore) : Type 0 where
  pub mirrors : Mirrors codec s
  pub calm : s.disk.faults ≡ []

module _ (rt : Runtime) (codec : Codec) (reads : ReadsBack codec) (s : FileStore)
    (h : Sound codec s) where
  save_node-Sound :
      (n : ContextNode) (m' : Map.Map ContextNode)
      → Plain (key n.id)
      → ((j : String) → Map.get j m' ≡ (if key n.id == j then some n else Map.get j s.nodes))
      → (save_node codec s.root n s.disk).0 ≡ ok tt
      → Sound codec (record s { nodes = m'; disk = (save_node codec s.root n s.disk).1 })
  unfolding save_node
  save_node-Sound n m' plain lookup good = record {
    mirrors = save_node-Mirrors codec reads s h.mirrors n m' plain lookup good;
    calm = save-faults codec.node (json_file (nodes_dir s.root) (key n.id)) n s.disk h.calm;
  }

  create-Sound :
      (id : String) (order : ℕ) (node : ContextNode)
      → Plain (key node.id)
      → let r = apply_operation rt codec s.root (create id order node) (s.nodes, s.disk) in
        r.0 ≡ ok tt → Sound codec (with_nodes r.1 s)
  unfolding apply_operation
  create-Sound id order node plain good =
      elim (Result-cases (save_node codec s.root (hashed rt node) s.disk).0) [
        | inr (e, bad) ↦ absurd (ground arith)
        | inl (done, saved) ↦ rw saved (
            save_node-Sound (hashed rt node) (Map.insert (key node.id) (hashed rt node) s.nodes)
              plain (λ j. Map.get-insert (key node.id) j (hashed rt node) s.nodes) saved)
      ]

  -- A change that keeps the name of the node.
  change-Sound :
      (k : String) (f : ContextNode → ContextNode)
      → ((n : ContextNode) → (f n).id ≡ n.id)
      → let r = change rt codec s.root k f (s.nodes, s.disk) in
        r.0 ≡ ok tt → Sound codec (with_nodes r.1 s)
  change-Sound k f keeps good = elim (Option-cases (Map.get k s.nodes)) [
    | inl missing ↦
        let same : change rt codec s.root k f (s.nodes, s.disk) ≡ (ok tt, (s.nodes, s.disk)) =
          ground arith in
        rw same h
    | inr (n, there) ↦
        let (names, plain) = h.mirrors.nodes.named k n there in
        let is : key (f n).id ≡ k = ap key (keeps n) ∙ names in
        let saved = save_node codec s.root (f n) s.disk in
        let m' = Map.adjust k (λ _. f n) s.nodes in
        let same : change rt codec s.root k f (s.nodes, s.disk) ≡ (saved.0, (m', saved.1)) =
          ground arith in
        rw same (
          save_node-Sound (f n) m' (rw is plain)
            (λ j. rw is (ground (arith, Map.get-adjust k j (λ _. f n) s.nodes, eq_iff k j)))
            (rw same at good))
  ]

  -- The file of a deleted node goes with it.
  delete-Sound :
      (k : String)
      → Plain k
      → Sound codec (record s {
        nodes = Map.remove k s.nodes;
        disk = (remove_file (json_file (nodes_dir s.root) k) s.disk).1;
      })
  delete-Sound k plain =
      let path = json_in (nodes_dir s.root) k in
      let d' = (remove_file path s.disk).1 in
      let found : (q : FilePath) → find q d' ≡ (if same_path path q then none else find q s.disk) =
        remove_file-find s.disk h.calm path in
      let away : (q : FilePath) → nodes_dir s.root ≢ q.dir → find q d' ≡ find q s.disk =
        λ q other. rw found (ground (arith, eq_iff (nodes_dir s.root) q.dir)) in
      rw (join-json (nodes_dir s.root) k plain) (record {
        mirrors = record {
          nodes = record {
            shown = λ j some_name.
                rw (found, same_path-json, Map.get-remove)
                  (ground (arith, h.mirrors.nodes.shown j some_name));
            named =
                λ j n there. ground (arith, Map.get-remove k j s.nodes, h.mirrors.nodes.named j n);
          };
          proposals =
              Shows-agree d' (λ k. away _ (apart s.root _ _ (names_differ _ _ refl)))
                h.mirrors.proposals;
          reviews =
              Shows-agree d' (λ k. away _ (apart s.root _ _ (names_differ _ _ refl)))
                h.mirrors.reviews;
          audit =
              rw (away (audit_file s.root) (below s.root _ (names_differ _ _ refl)))
                h.mirrors.audit;
          revision =
              rw (away (revision_file s.root) (below s.root _ (names_differ _ _ refl)))
                h.mirrors.revision;
          tidy = remove_file-Tidy s.disk h.mirrors.tidy path;
        };
        calm = remove_file-faults s.disk h.calm path;
      })

changed-id :
    (rt : Runtime) (changes : UpdateChanges) (n : ContextNode) → (changed rt changes n).id ≡ n.id
changed-id rt changes n = ground arith

-- One round of the loop.
apply_operation-Sound :
    (rt : Runtime) (codec : Codec) (reads : ReadsBack codec) (s : FileStore) (op : Operation)
    → Sound codec s
    → HasPlainName op
    → let r = apply_operation rt codec s.root op (s.nodes, s.disk) in
      r.0 ≡ ok tt → Sound codec (with_nodes r.1 s)
unfolding apply_operation
apply_operation-Sound rt codec reads s (create id order node) h plain good =
    create-Sound rt codec reads s h id order node plain good
apply_operation-Sound rt codec reads s (update id order node_id changes) h plain good =
    change-Sound rt codec reads s h (key node_id) (changed rt changes) (changed-id rt changes) good
apply_operation-Sound rt codec reads s (delete id order node_id reason) h plain good =
    delete-Sound rt codec reads s h (key node_id) plain
apply_operation-Sound rt codec reads s (status_change id order node_id new old reason) h plain
      good =
    change-Sound rt codec reads s h (key node_id) (λ n. record n { status = new }) (λ n. refl) good

pub apply_operations-Sound :
    (rt : Runtime) (codec : Codec) (reads : ReadsBack codec) (s : FileStore) (ops : List Operation)
    → Sound codec s
    → All HasPlainName ops
    → let r = apply_operations rt codec s.root ops (s.nodes, s.disk) in
      r.0 ≡ ok tt → Sound codec (with_nodes r.1 s)
unfolding apply_operations
apply_operations-Sound rt codec reads s [] h plain good = h
apply_operations-Sound rt codec reads s (op ∷ ops) h (plain, plains) good =
    let r = apply_operation rt codec s.root op (s.nodes, s.disk) in
    elim (Result-cases r.0) [
      | inr (e, bad) ↦ absurd (ground arith)
      | inl (done, fine) ↦
          let s' = with_nodes r.1 s in
          let same : apply_operations rt codec s.root (op ∷ ops) (s.nodes, s.disk)
              ≡ apply_operations rt codec s.root ops (s'.nodes, s'.disk) =
            ground arith in
          rw same (
            apply_operations-Sound rt codec reads s' ops
              (apply_operation-Sound rt codec reads s op h plain fine) plains (rw same at good))
    ]
