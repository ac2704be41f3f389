-- ===== src/Store/Commands/Lifecycle.antt =====
-- The statuses of a proposal of server/src/store/in_memory.rs as a state machine.
use context_first_docs.Prelude.{
  String, Option, none, some, List, [], ◌∷◌, ◌≡◌, ◌≢◌, ◌⊎◌, if◌then◌else◌, refl, arith, ◌==◌,
  string_eq, eq_iff, Bool-cases, Option-cases, Result, inl, inr, ok, err, All,
}
use context_first_docs.Prelude.Map
use context_first_docs.Prelude.Map.{get-insert, get-adjust}
use context_first_docs.Types.Proposal.{
  Proposal, ProposalStatus, status_eq, rejected, withdrawn, applied, Comment, Review, ReviewAction,
}
use context_first_docs.Runtime.{Runtime}
use context_first_docs.Store.{StoreError, InMemoryStore}
use context_first_docs.Store.Apply.{apply_proposal, last_review_id, mark_applied}
use context_first_docs.Store.Apply.Fields.{apply_proposal-cases, commit-proposals}
use context_first_docs.Store.Commands.{
  Command, create_proposal, update_proposal, submit_review, apply_proposal as apply_command,
  withdraw_proposal, add_proposal_comment, reset, append_audit, at_time, execute, run,
}
use context_first_docs.Store.AuditLog
use context_first_docs.Store.Proposals
use context_first_docs.Store.Proposals.{
  with_proposal, reviewed, review_proposal, record_review, push_comment,
}
use context_first_docs.Store.Commands.Moves.{
  status_of, Move, stay, submit, accept, reject, withdraw, apply, adjust-status,
  with_proposal-status,
}

-- A proposal that is submitted under a free id in another status than open, and stored in it.
abbrev pub SubmittedClosed : Runtime → Command → InMemoryStore → String → Type 0
SubmittedClosed rt c s id =
    (p : Proposal) × (c ≡ create_proposal p)
    × (p.id ≡ id)
    × (p.status ≢ ProposalStatus.«open»)
    × (status_of id s ≡ none)
    × (status_of id (execute rt c s).1 ≡ some p.status)

create-status :
    (p : Proposal) (s : InMemoryStore)
    → Map.get p.id s.proposals ≡ none
    → (j : String)
    → status_of j (Proposals.create_proposal p s).1
      ≡ (if p.id == j then some p.status else status_of j s)
unfolding Proposals.create_proposal Map.contains_key
create-status p s free j = elim (Bool-cases (p.id == j)) [
  | inl own ↦
      rw (free, Proposals.create_proposal, Map.contains_key)
        (rw (get-insert p.id j p s.proposals, own) refl)
  | inr other ↦
      rw (free, Proposals.create_proposal, Map.contains_key)
        (rw (get-insert p.id j p s.proposals, other) refl)
]

create-taken :
    (p : Proposal) (s : InMemoryStore) {q : Proposal}
    → Map.get p.id s.proposals ≡ some q
    → (Proposals.create_proposal p s).1 ≡ s
unfolding Proposals.create_proposal Map.contains_key
create-taken p s taken = rw (taken, Proposals.create_proposal, Map.contains_key) refl

create-Move :
    (rt : Runtime) (p : Proposal) (s : InMemoryStore) (j : String)
    → Move (status_of j s) (status_of j (Proposals.create_proposal p s).1)
      ⊎ SubmittedClosed rt (create_proposal p) s j
unfolding execute
create-Move rt p s j = elim (Option-cases (Map.get p.id s.proposals)) [
  | inr (q, taken) ↦ inl (rw (create-taken p s taken) (stay (status_of j s)))
  | inl free ↦ elim (Bool-cases (p.id == j)) [
    | inr other ↦ inl (rw (create-status p s free j, other) (stay (status_of j s)))
    | inl own ↦
        let is : p.id ≡ j = (eq_iff p.id j).0 own in
        let before : status_of j s ≡ none = rw (← is, free) refl in
        let after : status_of j (Proposals.create_proposal p s).1 ≡ some p.status =
          rw (create-status p s free j, own) refl in
        elim (Bool-cases (p.status == ProposalStatus.«open»)) [
          | inl opened ↦
              let status : p.status ≡ ProposalStatus.«open» = ground arith in
              inl (rw (before, after, status) submit)
          | inr closed ↦ inr (p, refl, is, λ e. ground (arith, e), before, after)
        ]
  ]
]

reviewed-Move :
    (a : ReviewAction) {before after : ProposalStatus}
    → (before ≡ ProposalStatus.«open») × (after ≡ reviewed a ProposalStatus.«open»)
    → Move (some before) (some after)
reviewed-Move ReviewAction.accept (e, h) = rw (e, h) accept
reviewed-Move ReviewAction.reject (e, h) = rw (e, h) reject
reviewed-Move ReviewAction.request_changes (e, h) = rw (e, h) (stay _)

review-Move :
    (r : Review) (p p' : Proposal)
    → review_proposal r p ≡ ok p'
    → Move (some p.status) (some p'.status)
review-Move r p p' h = reviewed-Move r.action (ground arith)

withdrawn-Move :
    {before after : ProposalStatus}
    → (before ≡ ProposalStatus.«open») × (after ≡ withdrawn)
    → Move (some before) (some after)
withdrawn-Move (e, h) = rw (e, h) withdraw

withdraw-Move :
    (p p' : Proposal) → Proposals.withdraw p ≡ ok p' → Move (some p.status) (some p'.status)
withdraw-Move p p' h = withdrawn-Move (ground arith)

comment-Move :
    (c : Comment) (p p' : Proposal)
    → push_comment c p ≡ ok p'
    → Move (some p.status) (some p'.status)
comment-Move c p p' h = let e : p.status ≡ p'.status = ground arith in rw e (stay (some p'.status))

record_review-status :
    (r : Review) (j : String) (m : Result StoreError (Unit {0}) × InMemoryStore)
    → status_of j (record_review r m).1 ≡ status_of j m.1
record_review-status r j (ok done, s) = refl
record_review-status r j (err e, s) = refl

apply-Move :
    (rt : Runtime) (id by : String) (s : InMemoryStore) (j : String)
    → Move (status_of j s) (status_of j (apply_proposal rt id by s).1)
apply-Move rt id by s j = elim (apply_proposal-cases rt id by s) [
  | inl (r, same) ↦ rw same (stay (status_of j s))
  | inr (p, found, was, same) ↦
      rw same (elim (commit-proposals rt id by p.operations (last_review_id id s) s) [
        | inl old ↦ rw old (stay (status_of j s))
        | inr (meta, new) ↦
            rw new (adjust-status Move stay id s j (mark_applied meta) p found (rw was apply))
      ])
]

-- Every command but a PATCH and a reset.
abbrev pub IsGoverned : Command → Type 0
IsGoverned (update_proposal id updates) = ⊥
IsGoverned reset = ⊥
IsGoverned _ = Unit

-- Every call of the store but a PATCH and a reset leaves the status of each proposal or moves it
-- along the documented life: submitted as open, then from open to accepted, rejected or withdrawn,
-- then from accepted to applied; the one exception is a proposal that is submitted under a free id
-- in another status, in which it is stored.
pub execute-Move :
    (rt : Runtime) (c : Command) (s : InMemoryStore) (id : String)
    → IsGoverned c
    → Move (status_of id s) (status_of id (execute rt c s).1) ⊎ SubmittedClosed rt c s id
unfolding execute
execute-Move rt (create_proposal p) s j g = create-Move rt p s j
execute-Move rt (update_proposal id updates) s j g = absurd g
execute-Move rt (submit_review r) s j g =
    unfold Proposals.submit_review in
    inl (
      rw (record_review-status r j (with_proposal r.proposal_id (review_proposal r) s))
        (with_proposal-status Move stay r.proposal_id (review_proposal r) s j (review-Move r)))
execute-Move rt (apply_command now id by) s j g = inl (apply-Move (at_time rt now) id by s j)
execute-Move rt (withdraw_proposal id) s j g =
    unfold Proposals.withdraw_proposal in
    inl (with_proposal-status Move stay id Proposals.withdraw s j withdraw-Move)
execute-Move rt (add_proposal_comment id c) s j g =
    unfold Proposals.add_proposal_comment in
    inl (with_proposal-status Move stay id (push_comment c) s j (comment-Move c))
execute-Move rt reset s j g = absurd g
execute-Move rt (append_audit e) s j g = unfold AuditLog.append_audit in inl (stay (status_of j s))

-- A status that no further review, withdrawal or application changes.
abbrev pub IsTerminal : ProposalStatus → Type 0
IsTerminal rejected = Unit
IsTerminal withdrawn = Unit
IsTerminal applied = Unit
IsTerminal _ = ⊥

terminal-Move :
    {o o' : Option ProposalStatus}
    → Move o o'
    → {st : ProposalStatus} → o ≡ some st
    → IsTerminal st
    → o' ≡ some st
terminal-Move (stay o) e t = e
terminal-Move submit e t = cc
terminal-Move accept {st} e t = ground arith
terminal-Move reject {st} e t = ground arith
terminal-Move withdraw {st} e t = ground arith
terminal-Move apply {st} e t = ground arith

-- A rejected, withdrawn or applied proposal keeps its status under any calls of the store but a
-- PATCH and a reset.
pub run-terminal :
    (rt : Runtime) (cs : List Command) (s : InMemoryStore) (id : String) (st : ProposalStatus)
    → All IsGoverned cs
    → IsTerminal st
    → status_of id s ≡ some st
    → status_of id (run rt cs s) ≡ some st
unfolding run
run-terminal rt [] s id st g t e = e
run-terminal rt (c ∷ cs) s id st (g, gs) t e =
    let same : status_of id (execute rt c s).1 ≡ some st = elim (execute-Move rt c s id g) [
      | inl move ↦ terminal-Move move e t
      | inr born ↦ let (p, is, own, closed, free, after) = born in cc (e, free)
    ] in
    run-terminal rt cs (execute rt c s).1 id st gs t same
