-- ===== src/Tests/Files.antt =====
-- Runs of the file store.
use context_first_docs.Prelude.{
  ltb, String, some, none, [], ◌∷◌, ◌≡◌, ◌≢◌, refl, ok, false, All, ◌&&◌, if◌then◌else◌, decimal,
  ◌+◌, ◌%◌, ◌^◌, ◌==◌, string_eq,
}
use context_first_docs.Prelude.Map
use native.Mathlib.Decide.{ℕ_discrete}
use context_first_docs.Types.Proposal.{applied, ProposalStatus}
use context_first_docs.Types.Audit.{AuditEvent, proposal_created, success, new_event}
use context_first_docs.Types.Node.{key}
use context_first_docs.Store.Apply.{mark_applied}
use context_first_docs.Disk.{
  Disk, cut_last, join, file_stem, with_extension, create_dir_all, write, rename, remove_file,
}
use context_first_docs.Disk.Names.{Plain}
use context_first_docs.FileStore.{
  Codec, FileStore, blocked, atomic_write, save_node, save_proposal, save_reviews, save_audit_log,
}
use context_first_docs.FileStore.Calls
use context_first_docs.FileStore.Apply.{apply_proposal, hashed, metadata_of}
use context_first_docs.FileStore.Loading.{new}
use context_first_docs.FileStore.Consistent.{Mirrors, ReadsBack}
use context_first_docs.FileStore.Reopening.{first_store, Reopened, Reach-Reopened}
use context_first_docs.FileStore.Commands.{
  Command, create_proposal, submit_review, withdraw_proposal, append_audit, execute, Reach, here,
  call,
}
use context_first_docs.FileStore.Commands.Durable.{execute-Mirrors, Reach-Mirrors}
use context_first_docs.FileStore.Reopening.{first_store-Mirrors}
use context_first_docs.Types.Query.{NodeQuery, any_node}
use context_first_docs.Store.Queries.{query_nodes}
use context_first_docs.FileStore.Pages.{query_nodes-agrees}
use context_first_docs.FileStore.Refinement.{memory, execute_refines}
use context_first_docs.FileStore.Atomic.{atomic_write-find}
use context_first_docs.FileStore.Blocking.{NeverOk, apply_proposal-NeverOk}
use context_first_docs.FileStore.Blocked.{Sound, HasPlainName}
use context_first_docs.FileStore.Lost.{apply_proposal-Reopened}
use context_first_docs.Store.Commands as Memory
use context_first_docs.Disk.{FilePath, find}
use context_first_docs.Disk.Files.{same_path, is_ok}
use context_first_docs.Runtime.{content_hash}
use context_first_docs.Tests.Data.{rt, node, good, waiting, review}
use context_first_docs.Tests.Formats.{
  texts_differ, labelled, labelled-Faithful, ContextNode_discrete, Proposal_discrete,
  Review_discrete, AuditEvent_discrete, List_discrete,
}

abbrev event : AuditEvent
event = new_event rt 0 "ann" "human" proposal_created "waiting" success

abbrev codec : Codec
codec = record {
  node = labelled ContextNode_discrete (("b", hashed rt (node "b" "second")) ∷ []);
  proposal = labelled Proposal_discrete (
      ("waiting", waiting)
      ∷ ("given up", record waiting { status = ProposalStatus.withdrawn })
      ∷ ("good", good)
      ∷ ("good, applied", mark_applied (metadata_of rt "good" "eve" 0) good)
      ∷ []);
  reviews = labelled (List_discrete Review_discrete) (("one review", review ∷ []) ∷ []);
  audit = labelled (List_discrete AuditEvent_discrete) (("one event", event ∷ []) ∷ []);
  revision = labelled ℕ_discrete (("1", 1) ∷ []);
}

codec-ReadsBack : ReadsBack codec
codec-ReadsBack = record {
  node = labelled-Faithful _ _;
  proposal = labelled-Faithful _ _;
  reviews = labelled-Faithful _ _;
  audit = labelled-Faithful _ _;
  revision = labelled-Faithful _ _;
}

calling : Unit {0}
unfolding execute Calls.create_proposal Calls.submit_review Calls.withdraw_proposal
    Calls.append_audit atomic_write create_dir_all write rename with_extension join cut_last
    save_proposal save_reviews save_node save_audit_log Map.get Map.insert Map.adjust Map.remove
    Map.contains_key key ℕ_discrete
calling = tt

abbrev start : FileStore
start = first_store "data"

opened_empty : (new codec "data" (record { dirs = []; faults = [] })).0 ≡ ok start
unfolding calling new
opened_empty = refl

plain : (name : String) → (name == "") ≡ false → cut_last b'/' name ≡ none → Plain name
plain name some_name no_slash = (texts_differ name "" some_name, no_slash)

waiting-Plain : Plain "waiting"
unfolding calling
waiting-Plain = plain "waiting" refl refl

abbrev next : Command → FileStore → FileStore
next c s = (execute codec c s).1

abbrev created : FileStore
created = next (create_proposal waiting) start

abbrev logged : FileStore
logged = next (append_audit event) created

abbrev reviewed : FileStore
reviewed = next (submit_review review) logged

abbrev given_up : FileStore
given_up = next (withdraw_proposal "waiting") reviewed

creates : (execute codec (create_proposal waiting) start).0 ≡ ok tt
unfolding calling
creates = refl

logs : (execute codec (append_audit event) created).0 ≡ ok tt
unfolding calling
logs = refl

reviews : (execute codec (submit_review review) logged).0 ≡ ok tt
unfolding calling
reviews = refl

gives_up : (execute codec (withdraw_proposal "waiting") reviewed).0 ≡ ok tt
unfolding calling
gives_up = refl

calls : Reach codec start given_up
calls =
    call
      (call
        (call (call here (create_proposal waiting) waiting-Plain creates) (append_audit event) tt
          logs)
        (submit_review review) waiting-Plain reviews)
      (withdraw_proposal "waiting") tt gives_up

Reach-Reopened_example :
    (t : FileStore) × ((new codec given_up.root given_up.disk).0 ≡ ok t) × Reopened given_up t
Reach-Reopened_example = Reach-Reopened codec codec-ReadsBack "data" given_up calls

execute-Mirrors_example : Mirrors codec created
execute-Mirrors_example =
    execute-Mirrors codec codec-ReadsBack (create_proposal waiting) start
      (first_store-Mirrors codec "data") refl waiting-Plain creates

execute_refines_example :
    Memory.execute rt (Memory.withdraw_proposal "waiting") (memory reviewed)
    ≡ (ok tt, memory given_up)
execute_refines_example =
    execute_refines codec rt (withdraw_proposal "waiting") (Memory.withdraw_proposal "waiting")
      reviewed refl gives_up

-- A failing rename leaves the old file.
abbrev audit : FilePath
audit = record { dir = "data"; name = "audit.json" }

abbrev failing : Disk
failing = record {
  dirs = ("data", ("audit.json", "old") ∷ []) ∷ [];
  faults = none ∷ none ∷ some (record { message = "no space"; left = none }) ∷ [];
}

other_file : same_path (with_extension "tmp" audit) audit ≡ false
unfolding with_extension file_stem cut_last
other_file = refl

atomic_write-find_example : find audit (atomic_write audit "new" failing).1 ≡ (
    if same_path audit audit && is_ok (atomic_write audit "new" failing).0
    then some "new"
    else find audit failing)
atomic_write-find_example = atomic_write-find audit audit "new" failing other_file

abbrev decided : FileStore
decided = next (create_proposal good) start

good-Plain : Plain "good"
unfolding calling
good-Plain = plain "good" refl refl

decides : (execute codec (create_proposal good) start).0 ≡ ok tt
unfolding calling
decides = refl

good_there : Map.get "good" decided.proposals ≡ some good
unfolding calling
good_there = refl

not_applied : good.status ≢ applied
not_applied h = cc

apply_proposal-NeverOk_example : NeverOk (apply_proposal rt codec "good" "eve" decided).0
apply_proposal-NeverOk_example =
    apply_proposal-NeverOk rt codec "good" "eve" decided good good_there not_applied

applying : Unit {0}
unfolding calling apply_proposal remove_file content_hash decimal
applying = tt

good_blocks : (apply_proposal rt codec "good" "eve" decided).0 ≡ blocked
unfolding applying
good_blocks = refl

decided-Sound : Sound codec decided
decided-Sound =
    let (mirrors, calm) =
      Reach-Mirrors codec codec-ReadsBack (first_store-Mirrors codec "data") refl
        (call here (create_proposal good) good-Plain decides) in
    record { mirrors = mirrors; calm = calm }

good_names : All HasPlainName good.operations
unfolding calling
good_names = (tt, (plain "b" refl refl, (tt, tt)))

apply_proposal-Reopened_example :
    let s' = (apply_proposal rt codec "good" "eve" decided).1 in
    (t : FileStore) × ((new codec s'.root s'.disk).0 ≡ ok t)
    × Reopened (record s' { revision_counter = 0 }) t
    × (Map.get "good" t.proposals ≡ some (mark_applied (metadata_of rt "good" "eve" 0) good))
    × (s'.revision_counter ≡ (0 + 1) % 2 ^ 64)
unfolding calling
apply_proposal-Reopened_example =
    apply_proposal-Reopened rt codec codec-ReadsBack "good" "eve" decided good decided-Sound
      good_there not_applied good_names good_blocks

-- The second page of a store without nodes.
abbrev beyond : NodeQuery
beyond = record any_node { offset = some 1 }

query_nodes-agrees_example : query_nodes rt beyond (memory created) ≡ (
    if ltb (Calls.query_nodes rt beyond created).total 1
    then none
    else some (Calls.query_nodes rt beyond created))
query_nodes-agrees_example = query_nodes-agrees rt beyond created refl refl
