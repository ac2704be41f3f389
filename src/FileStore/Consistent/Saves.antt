-- ===== src/FileStore/Consistent/Saves.antt =====
-- What a save of one proposal, node, list of reviews or log makes of the invariant of
-- server/src/store/file_store.rs.
use context_first_docs.Prelude.{
  List, String, some, ◌≡◌, ◌≢◌, refl, sym, ◌∙◌, arith, ◌==◌, string_eq, eq_iff, if◌then◌else◌, ok,
}
use context_first_docs.Prelude.Map
use context_first_docs.Prelude.Map.{Map}
use context_first_docs.Types.Node.{ContextNode, key}
use context_first_docs.Types.Proposal.{Proposal, Review}
use context_first_docs.Types.Audit.{AuditEvent}
use context_first_docs.Disk.{FilePath, find, with_extension}
use context_first_docs.Disk.Names.{Plain}
use context_first_docs.FileStore.{
  Codec, FileStore, nodes_dir, proposals_dir, reviews_dir, audit_file, revision_file, save_proposal,
  save_reviews, save_audit_log, save_node,
}
use context_first_docs.FileStore.Saving.{save-Tidy}
use context_first_docs.FileStore.Mirror.{save-Shows}
use context_first_docs.FileStore.Saving.{save-find}
use context_first_docs.FileStore.Consistent.{
  Mirrors, ReadsBack, Shows-agree, save-elsewhere, below, apart, names_differ,
}

module _ (codec : Codec) (reads : ReadsBack codec) (s : FileStore) (ms : Mirrors codec s) where
  -- Proposals under a name of a file, in the table and on the disk.
  pub save_proposal-Mirrors :
      (p : Proposal) (m' : Map Proposal)
      → Plain p.id
      → ((j : String) → Map.get j m' ≡ (if p.id == j then some p else Map.get j s.proposals))
      → (save_proposal codec s.root p s.disk).0 ≡ ok tt
      → Mirrors codec (record s { proposals = m'; disk = (save_proposal codec s.root p s.disk).1 })
  unfolding save_proposal
  save_proposal-Mirrors p m' plain lookup good =
      let d' = (save_proposal codec s.root p s.disk).1 in
      let away : (q : FilePath) → proposals_dir s.root ≢ q.dir → find q d' ≡ find q s.disk =
        λ q. save-elsewhere codec.proposal (proposals_dir s.root) p.id p s.disk q plain in
      record {
        nodes = Shows-agree d' (λ k. away _ (apart s.root _ _ (names_differ _ _ refl))) ms.nodes;
        proposals =
            save-Shows codec.proposal (λ k (p : Proposal). p.id) (proposals_dir s.root) p.id p
              s.proposals s.disk m' reads.proposal plain refl lookup ms.proposals good;
        reviews =
            Shows-agree d' (λ k. away _ (apart s.root _ _ (names_differ _ _ refl))) ms.reviews;
        audit = rw (away (audit_file s.root) (below s.root _ (names_differ _ _ refl))) ms.audit;
        revision =
            rw (away (revision_file s.root) (below s.root _ (names_differ _ _ refl))) ms.revision;
        tidy = save-Tidy codec.proposal _ p s.disk ms.tidy;
      }

  pub save_reviews-Mirrors :
      (id : String) (rs : List Review)
      → Plain id
      → (save_reviews codec s.root id rs s.disk).0 ≡ ok tt
      → Mirrors codec (record s {
        reviews = Map.insert id rs s.reviews;
        disk = (save_reviews codec s.root id rs s.disk).1;
      })
  unfolding save_reviews
  save_reviews-Mirrors id rs plain good =
      let d' = (save_reviews codec s.root id rs s.disk).1 in
      let away : (q : FilePath) → reviews_dir s.root ≢ q.dir → find q d' ≡ find q s.disk =
        λ q. save-elsewhere codec.reviews (reviews_dir s.root) id rs s.disk q plain in
      record {
        nodes = Shows-agree d' (λ k. away _ (apart s.root _ _ (names_differ _ _ refl))) ms.nodes;
        proposals =
            Shows-agree d' (λ k. away _ (apart s.root _ _ (names_differ _ _ refl))) ms.proposals;
        reviews =
            save-Shows codec.reviews (λ k (rs : List Review). k) (reviews_dir s.root) id rs
              s.reviews s.disk (Map.insert id rs s.reviews) reads.reviews plain refl
              (λ j. Map.get-insert id j rs s.reviews) ms.reviews good;
        audit = rw (away (audit_file s.root) (below s.root _ (names_differ _ _ refl))) ms.audit;
        revision =
            rw (away (revision_file s.root) (below s.root _ (names_differ _ _ refl))) ms.revision;
        tidy = save-Tidy codec.reviews _ rs s.disk ms.tidy;
      }

  -- Nodes under a name of a file.
  pub save_node-Mirrors :
      (n : ContextNode) (m' : Map ContextNode)
      → Plain (key n.id)
      → ((j : String) → Map.get j m' ≡ (if key n.id == j then some n else Map.get j s.nodes))
      → (save_node codec s.root n s.disk).0 ≡ ok tt
      → Mirrors codec (record s { nodes = m'; disk = (save_node codec s.root n s.disk).1 })
  unfolding save_node
  save_node-Mirrors n m' plain lookup good =
      let d' = (save_node codec s.root n s.disk).1 in
      let away : (q : FilePath) → nodes_dir s.root ≢ q.dir → find q d' ≡ find q s.disk =
        λ q. save-elsewhere codec.node (nodes_dir s.root) (key n.id) n s.disk q plain in
      record {
        nodes =
            save-Shows codec.node (λ k (n : ContextNode). key n.id) (nodes_dir s.root) (key n.id) n
              s.nodes s.disk m' reads.node plain refl lookup ms.nodes good;
        proposals =
            Shows-agree d' (λ k. away _ (apart s.root _ _ (names_differ _ _ refl))) ms.proposals;
        reviews =
            Shows-agree d' (λ k. away _ (apart s.root _ _ (names_differ _ _ refl))) ms.reviews;
        audit = rw (away (audit_file s.root) (below s.root _ (names_differ _ _ refl))) ms.audit;
        revision =
            rw (away (revision_file s.root) (below s.root _ (names_differ _ _ refl))) ms.revision;
        tidy = save-Tidy codec.node _ n s.disk ms.tidy;
      }

  pub save_audit_log-Mirrors :
      (log : List AuditEvent)
      → (save_audit_log codec s.root log s.disk).0 ≡ ok tt
      → Mirrors codec
          (record s { audit_log = log; disk = (save_audit_log codec s.root log s.disk).1 })
  unfolding save_audit_log with_extension
  save_audit_log-Mirrors log good =
      let (text, prints, found) = save-find codec.audit (audit_file s.root) log s.disk good in
      let d' = (save_audit_log codec s.root log s.disk).1 in
      let kept : (q : FilePath) → s.root ≢ q.dir → find q d' ≡ find q s.disk = λ q away.
        found q (ground (arith, eq_iff s.root q.dir)) ∙ ground (arith, eq_iff s.root q.dir) in
      record {
        nodes =
            Shows-agree d' (λ k. kept _ (λ e. below s.root _ (names_differ _ _ refl) (sym e)))
              ms.nodes;
        proposals =
            Shows-agree d' (λ k. kept _ (λ e. below s.root _ (names_differ _ _ refl) (sym e)))
              ms.proposals;
        reviews =
            Shows-agree d' (λ k. kept _ (λ e. below s.root _ (names_differ _ _ refl) (sym e)))
              ms.reviews;
        audit =
            rw (found (audit_file s.root) (ground (arith, eq_iff s.root s.root)))
              (ground (arith, eq_iff s.root s.root, reads.audit log text prints));
        revision =
            rw (found (revision_file s.root) (ground (arith, eq_iff s.root s.root)))
              (ground (arith, eq_iff s.root s.root, ms.revision));
        tidy = save-Tidy codec.audit _ log s.disk ms.tidy;
      }
