-- ===== src/Store/Conflicts/Overlaps.antt =====
-- What `is_proposal_stale` and `detect_conflicts` of server/src/store/in_memory.rs find.
use mathlib.Core.List.{Memᴰ}
use mathlib.Core.Path.{subst}
use context_first_docs.Prelude.{
  Result, ℕ, ◌<◌, String, some, List, [], ◌∷◌, ◌≡◌, ◌↔◌, refl, sym, ap, ◌∙◌, arith, eq_iff, Bool,
  true, ◌==◌, ◌||◌, string_eq, any, any_iff, contains, contains_iff, Bool-cases, Option-cases, inl,
  inr, ok,
}
use context_first_docs.Prelude.Map
use context_first_docs.Prelude.Map.{Map}
use context_first_docs.Types.Node.{ContextNode, key}
use context_first_docs.Types.Proposal.{Proposal, Operation}
use context_first_docs.Store.{StoreError, InMemoryStore}
use context_first_docs.Store.Conflicts.{
  target, insert_key, operations_node_keys, moved, is_proposal_stale,
}

-- An operation among these is about the node under the key.
abbrev pub Touches : List Operation → String → Type 0
Touches ops k = (op : Operation) × Memᴰ op ops × (key (target op) ≡ k)

insert_key-contains :
    (k j : String) (ks : List String) → contains (insert_key k ks) j ≡ (k == j || contains ks j)
insert_key-contains k j ks = elim (Bool-cases (k == j)) [
  | inl own ↦
      let same : contains ks k ≡ contains ks j = ap (contains ks) ((eq_iff k j).0 own) in
      ground arith
  | inr other ↦ ground arith
]

pub operations_node_keys-contains :
    (ops : List Operation) (k : String)
    → contains (operations_node_keys ops) k ≡ any (λ op. key (target op) == k) ops
unfolding operations_node_keys
operations_node_keys-contains [] k = refl
operations_node_keys-contains (op ∷ ops) k =
    insert_key-contains (key (target op)) k (operations_node_keys ops)
    ∙ ap (λ b. key (target op) == k || b) (operations_node_keys-contains ops k)

-- The keys of some operations are those of the nodes that they are about.
pub operations_node_keys_iff :
    (ops : List Operation) (k : String) → Memᴰ k (operations_node_keys ops) ↔ Touches ops k
operations_node_keys_iff ops k =
    let found = any_iff (λ op. key (target op) == k) ops in
    let keys = contains_iff (operations_node_keys ops) k in
    let same = operations_node_keys-contains ops k in
    (
      λ m.
          let (op, among, own) = found.0 (sym same ∙ keys.1 m) in
          (op, among, (eq_iff (key (target op)) k).0 own),
      λ h. keys.0 (same ∙ found.1 (h.0, h.1, (eq_iff (key (target h.0)) k).1 h.2)),
    )

-- The node under the key is there and has moved past the version that the proposal was based on.
pub record Moved (base : Map ℕ) (nodes : Map ContextNode) (k : String) : Type 0 where
  pub node : ContextNode
  pub version : ℕ
  pub present : Map.get k nodes ≡ some node
  pub based : Map.get k base ≡ some version
  pub newer : version < node.metadata.version

moved_iff :
    (base : Map ℕ) (nodes : Map ContextNode) (k : String)
    → (moved base nodes k ≡ true) ↔ Moved base nodes k
moved_iff base nodes k = (
  λ h. elim (Option-cases (Map.get k nodes)) [
    | inl gone ↦ ground arith
    | inr (n, present) ↦ elim (Option-cases (Map.get k base)) [
      | inl new ↦ ground arith
      | inr (v, based) ↦ record {
        node = n;
        version = v;
        present = present;
        based = based;
        newer = ground arith;
      }
    ]
  ],
  λ m. ground (arith, m.present, m.based, m.newer),
)

stale-any :
    (id : String) (s : InMemoryStore) {p : Proposal} {base : Map ℕ}
    → Map.get id s.proposals ≡ some p
    → p.metadata.base_versions ≡ some base
    → is_proposal_stale id s ≡ ok (any (moved base s.nodes) (operations_node_keys p.operations))
unfolding is_proposal_stale
stale-any id s found based = rw (found, is_proposal_stale) (rw based refl)

ok-inj : {a b : Bool} → ◌≡◌ {A = Result StoreError Bool} (ok a) (ok b) → a ≡ b
ok-inj e = cc

-- A proposal with base versions is stale exactly when one of its operations is about a node whose
-- version is above the one the proposal was based on.
pub is_proposal_stale_iff :
    (id : String) (s : InMemoryStore) (p : Proposal) (base : Map ℕ)
    → Map.get id s.proposals ≡ some p
    → p.metadata.base_versions ≡ some base
    → (is_proposal_stale id s ≡ ok true)
      ↔ ((op : Operation) × Memᴰ op p.operations × Moved base s.nodes (key (target op)))
is_proposal_stale_iff id s p base found based =
    let same = stale-any id s found based in
    let search = any_iff (moved base s.nodes) (operations_node_keys p.operations) in
    (
      λ h.
          let (k, among, past) = search.0 (ok-inj (sym same ∙ h)) in
          let (op, here, own) = (operations_node_keys_iff p.operations k).0 among in
          (op, here, subst (Moved base s.nodes) (sym own) ((moved_iff base s.nodes k).0 past)),
      λ h.
          let k = key (target h.0) in
          same
          ∙ ap ok (
              search.1 (
                k,
                (operations_node_keys_iff p.operations k).1 (h.0, h.1, refl),
                (moved_iff base s.nodes k).1 h.2,
              )),
    )
