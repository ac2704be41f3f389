-- ===== src/Store/Conflicts/Detection.antt =====
-- What `detect_conflicts` of server/src/store/in_memory.rs says of the other open proposals.
use mathlib.Core.List.{Memᴰ}
use mathlib.Core.List.Memᴰ
use context_first_docs.Prelude.{
  String, none, some, List, [], ◌∷◌, ◌++◌, ◌≡◌, ◌↔◌, refl, sym, ap, ◌∙◌, arith, eq_iff, Bool, true,
  false, ◌==◌, ◌||◌, ◌&&◌, not, string_eq, if◌then◌else◌, any, any_iff, contains, contains_iff,
  contains-append, is_empty, filter_map, retain, map, Bool-cases, Option-cases, inl, inr, ok,
}
use context_first_docs.Prelude.Map
use context_first_docs.Types.Node.{NodeId}
use context_first_docs.Types.Proposal.{Proposal}
use context_first_docs.Types.Conflicts.{ProposalConflict, ConflictDetectionResult}
use context_first_docs.Runtime.{Runtime}
use context_first_docs.Store.{InMemoryStore}
use context_first_docs.Store.Conflicts.{
  operations_node_keys, split_colon, key_to_node_id, common, conflicting_nodes, scan, other_open,
  detect_conflicts,
}
use context_first_docs.Store.Conflicts.Overlaps.{Touches, operations_node_keys_iff}

key_to_node_id-some : (k : String) → (n : NodeId) × (key_to_node_id k ≡ some n)
unfolding key_to_node_id
key_to_node_id-some k = elim (Option-cases (split_colon k)) [
  | inl plain ↦ (record { id = k; namespace = none }, rw (plain, key_to_node_id) refl)
  | inr (parts, e) ↦
      (record { id = parts.1; namespace = some parts.0 }, rw (e, key_to_node_id) refl)
]

is_empty-ids : (ks : List String) → is_empty (filter_map key_to_node_id ks) ≡ is_empty ks
is_empty-ids [] = refl
is_empty-ids (k ∷ ks) = let (n, e) = key_to_node_id-some k in ground arith

not_empty_iff : (ks : List String) → (is_empty ks ≡ false) ↔ ((k : String) × Memᴰ k ks)
not_empty_iff [] = (λ h. cc, λ h. absurd (Memᴰ.not-nil h.1))
not_empty_iff (k ∷ ks) = (λ _. (k, Memᴰ.head refl), λ _. refl)

contains-retain :
    (f : String → Bool) (ks : List String) (k : String)
    → contains (retain f ks) k ≡ (contains ks k && f k)
contains-retain f [] k = refl
contains-retain f (j ∷ ks) k = elim (Bool-cases (j == k)) [
  | inl own ↦
      let same : f j ≡ f k = ap f ((eq_iff j k).0 own) in ground (arith, contains-retain f ks k)
  | inr other ↦ ground (arith, contains-retain f ks k)
]

add-contains :
    (needs : List String) (i k : String)
    → contains (if contains needs i then needs else needs ++ i ∷ []) k
      ≡ (contains needs k || i == k)
add-contains needs i k = elim (Bool-cases (i == k)) [
  | inl own ↦
      let same : contains needs i ≡ contains needs k = ap (contains needs) ((eq_iff i k).0 own) in
      ground (arith, contains-append needs (i ∷ []) k)
  | inr other ↦ ground (arith, contains-append needs (i ∷ []) k)
]

-- Some node is the business of both proposals.
abbrev pub Overlaps : Proposal → Proposal → Type 0
Overlaps p other = (k : String) × Touches p.operations k × Touches other.operations k

module _ (rt : Runtime) (id : String) (p : Proposal)
    (arranged : (ks : List String) (k : String)
      → contains (rt.arrange_keys ks) k ≡ contains ks k) where
  abbrev keys : List String
  keys = operations_node_keys p.operations

  overlap_iff :
      (other : Proposal)
      → (is_empty (conflicting_nodes rt id keys other) ≡ false) ↔ Overlaps p other
  overlap_iff other =
      let others = operations_node_keys other.operations in
      let shared = common keys others in
      let empty = is_empty-ids (rt.arrange_keys shared) in
      let found = not_empty_iff (rt.arrange_keys shared) in
      let both : (k : String)
          → contains (rt.arrange_keys shared) k ≡ (contains keys k && contains others k) =
        λ k. arranged shared k ∙ contains-retain (contains others) keys k in
      (
        λ h.
            let (k, among) = found.0 (sym empty ∙ h) in
            let yes_both : (contains keys k && contains others k) ≡ true =
              sym (both k) ∙ (contains_iff (rt.arrange_keys shared) k).1 among in
            (
              k,
              (operations_node_keys_iff p.operations k).0 ((contains_iff keys k).0 (ground arith)),
              (operations_node_keys_iff other.operations k).0
                  ((contains_iff others k).0 (ground arith)),
            ),
        λ h.
            let (k, own, its) = h in
            let mine = (contains_iff keys k).1 ((operations_node_keys_iff p.operations k).1 own) in
            let theirs =
              (contains_iff others k).1 ((operations_node_keys_iff other.operations k).1 its) in
            empty
            ∙ found.1 (k, (contains_iff (rt.arrange_keys shared) k).0 (both k ∙ ground arith)),
      )

  scan-needs :
      (others : List Proposal) (conflicts : List ProposalConflict) (needs : List String)
      (k : String)
      → contains (scan rt id keys others conflicts needs).1 k ≡ (
          contains needs k
          || any
              (λ other. not (is_empty (conflicting_nodes rt id keys other)) && other.id == k)
              others)
  unfolding scan
  scan-needs [] conflicts needs k = ground arith
  scan-needs (other ∷ others) conflicts needs k =
      elim (Bool-cases (is_empty (conflicting_nodes rt id keys other))) [
        | inl free ↦ rw free (scan-needs others conflicts needs k)
        | inr bound ↦
            rw bound (scan-needs others _ _ k ∙ ground (arith, add-contains needs other.id k))
      ]

  -- A search for a proposal with this id that overlaps.
  abbrev needy : String → Proposal → Bool
  needy k other = not (is_empty (conflicting_nodes rt id keys other)) && other.id == k

  needy_iff :
      (k : String) (other : Proposal) → (needy k other ≡ true) ↔ ((other.id ≡ k) × Overlaps p other)
  needy_iff k other =
      let (to, from) = overlap_iff other in
      let (same_to, same_from) = eq_iff other.id k in
      (
        λ h. (same_to (ground arith), to (ground arith)),
        λ h. let own = same_from h.0 in let bound = from h.1 in ground arith,
      )

detect_conflicts-scan :
    (rt : Runtime) (id : String) (s : InMemoryStore) (p : Proposal) (r : ConflictDetectionResult)
    → Map.get id s.proposals ≡ some p
    → detect_conflicts rt id s ≡ ok r
    → let found = scan rt id (operations_node_keys p.operations) (other_open rt id s) [] [] in
      (found.0 ≡ r.conflicts)
      × (found.1 ≡ r.needs_resolution)
      × (retain
            (λ other. not (contains found.1 other))
            (map (λ (q : Proposal). q.id) (other_open rt id s))
          ≡ r.mergeable)
unfolding detect_conflicts
detect_conflicts-scan rt id s p r found h = ground arith

-- An id is in needs_resolution exactly when it is that of another open proposal that shares a node
-- with the given one, provided that the iteration of a set of keys runs through its keys.
pub detect_conflicts-needs_resolution :
    (rt : Runtime) (id : String) (s : InMemoryStore) (p : Proposal) (r : ConflictDetectionResult)
    (k : String)
    → ((ks : List String) (j : String) → contains (rt.arrange_keys ks) j ≡ contains ks j)
    → Map.get id s.proposals ≡ some p
    → detect_conflicts rt id s ≡ ok r
    → Memᴰ k r.needs_resolution
      ↔ ((other : Proposal) × Memᴰ other (other_open rt id s) × (other.id ≡ k) × Overlaps p other)
detect_conflicts-needs_resolution rt id s p r k arranged found h =
    let own = λ (needs : List String). contains needs k in
    let (listed, needed, rest) = detect_conflicts-scan rt id s p r found h in
    let others = other_open rt id s in
    let says = sym (ap own needed) ∙ scan-needs rt id p arranged others [] [] k in
    let search = any_iff (needy rt id p arranged k) others in
    let among = contains_iff r.needs_resolution k in
    (
      λ m.
          let (other, here, good) = search.0 (sym says ∙ among.1 m) in
          let (same, overlap) = (needy_iff rt id p arranged k other).0 good in
          (other, here, same, overlap),
      λ g. among.0 (says ∙ search.1 (g.0, g.1, (needy_iff rt id p arranged k g.0).1 (g.2, g.3))),
    )
