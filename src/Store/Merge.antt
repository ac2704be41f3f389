-- ===== src/Store/Merge.antt =====
-- `merge_proposals` of server/src/store/in_memory.rs.
pub mod Table
pub mod Entries
pub mod Gathered
pub mod Divided
pub mod Found
use context_first_docs.Prelude.{
  String, Option, none, some, List, [], ◌∷◌, ◌++◌, Bool, ◌&&◌, not, Result, ok, err, if◌then◌else◌,
  ◌==◌, string_eq, nat_eq, length, any, filter_map, unwrap_or,
}
use context_first_docs.Prelude.Map
use context_first_docs.Types.Json.{null, str}
use context_first_docs.Types.Node.{
  NodeId, NodeStatus, accepted, proposed, rejected, superseded, key,
}
use context_first_docs.Types.Proposal.{Proposal, Operation, update}
use context_first_docs.Types.Conflicts.{FieldChange, MergeResult}
use context_first_docs.Store.{StoreError, not_found, InMemoryStore}
use context_first_docs.Store.Conflicts.{key_to_node_id}

-- One change of a field: the proposal that asks for it, and the text of the value. The server
-- wraps each text in a JSON string, which changes no comparison.
abbrev pub Value : Type 0
Value = String × String

-- A key of the table: the key of the node, and the name of the field.
abbrev pub Place : Type 0
Place = String × String

abbrev pub same_place : Place → Place → Bool
same_place (k, f) (j, g) = k == j && f == g

abbrev pub Table : Type 0
Table = List (Place × List Value)

-- `by_field.entry(place).or_default().push(value)`
unfoldable pub push : Place → Value → Table → Table
push place v [] = (place, v ∷ []) ∷ []
push place v ((other, vs) ∷ t) =
    if same_place other place then (other, vs ++ v ∷ []) ∷ t else (other, vs) ∷ push place v t

-- The derived serialisation (`kebab-case`) of a status.
abbrev pub node_status_str : NodeStatus → String
node_status_str accepted = "accepted"
node_status_str proposed = "proposed"
node_status_str rejected = "rejected"
node_status_str superseded = "superseded"

push_content : String → String → Option String → Table → Table
unfolding push
push_content pid k none t = t
push_content pid k (some c) t = push (k, "content") (pid, c) t

push_status : String → String → Option NodeStatus → Table → Table
unfolding push
push_status pid k none t = t
push_status pid k (some s) t = push (k, "status") (pid, node_status_str s) t

-- Only updates are merged.
unfoldable pub collect_operation : String → Operation → Table → Table
unfolding push_content push_status
collect_operation pid (update id order node_id changes) t =
    push_status pid (key node_id) changes.status (push_content pid (key node_id) changes.content t)
collect_operation pid _ t = t

unfoldable pub collect_operations : String → List Operation → Table → Table
unfolding collect_operation
collect_operations pid [] t = t
collect_operations pid (op ∷ ops) t = collect_operations pid ops (collect_operation pid op t)

unfoldable pub collect : List Proposal → Table → Table
unfolding collect_operations
collect [] t = t
collect (p ∷ ps) t = collect ps (collect_operations p.id p.operations t)

abbrev pub place_id : Place → NodeId
place_id (k, f) = unwrap_or (key_to_node_id k) (record { id = k; namespace = none })

abbrev pub change_at : Place → String → FieldChange
change_at place v = record {
  node_id = place_id place;
  field = place.1;
  old_value = null;
  new_value = str v;
}

-- `uniq.len() > 1`, for values that start with `v`
abbrev pub differs : String → List Value → Bool
differs v vs = any (λ w. not (w.1 == v)) vs

-- What one entry of the table adds to the result.
unfoldable pub classify : Place → List Value → MergeResult → MergeResult
classify place [] r = r
classify place (v ∷ []) r = record r { auto_merged = r.auto_merged ++ change_at place v.1 ∷ [] }
classify place (v ∷ w ∷ vs) r =
    if differs v.1 (w ∷ vs)
    then record r {
      conflicts =
          r.conflicts
          ++ record {
            field = place.1;
            node_id = place_id place;
            proposal1_value = str v.1;
            proposal2_value = str w.1;
          }
            ∷ [];
    }
    else record r { merged = r.merged ++ change_at place v.1 ∷ [] }

unfoldable pub classify_all : Table → MergeResult → MergeResult
unfolding classify
classify_all [] r = r
classify_all ((place, vs) ∷ t) r = classify_all t (classify place vs r)

abbrev pub nothing_merged : MergeResult
nothing_merged = record { merged = []; conflicts = []; auto_merged = [] }

-- `arrange` is the order in which the table is iterated.
unfoldable pub merge_proposals :
    (Table → Table) → List String → InMemoryStore → Result StoreError MergeResult
unfolding collect classify_all
merge_proposals arrange ids s =
    let proposals = filter_map (λ id. Map.get id s.proposals) ids in
    if not (length proposals == length ids)
    then err (not_found "one or more proposal ids not found")
    else ok (classify_all (arrange (collect proposals [])) nothing_merged)
