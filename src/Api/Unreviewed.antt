-- ===== src/Api/Unreviewed.antt =====
-- What server/src/api/routes.rs does with a proposal that is posted as accepted, over the in-memory
-- store.
use context_first_docs.Prelude.{
  String, Option, none, some, [], ◌∷◌, ◌++◌, ◌≡◌, ◌≢◌, refl, arith, true, false, string_eq, eq_refl,
  All, unwrap_or, ok,
}
use context_first_docs.Prelude.Map
use context_first_docs.Prelude.Map.{get-insert}
use context_first_docs.Types.Proposal.{Proposal, accepted}
use context_first_docs.Types.Audit.{success, proposal_created}
use context_first_docs.Runtime.{Runtime}
use context_first_docs.Policy.{PolicyConfig}
use context_first_docs.Policy.Create.{evaluate_on_create}
use context_first_docs.Policy.Apply.{evaluate_on_apply}
use context_first_docs.Auth.{ActorContext, agent, contributor, applier, has_role, actor_type_beq}
use context_first_docs.Store.{InMemoryStore}
use context_first_docs.Store.AuditLog.{append_audit}
use context_first_docs.Store.Proposals
use context_first_docs.Store.Apply.Success.{Needs, apply_proposal-succeeds}
use context_first_docs.Store.Interface.{in_memory}
use context_first_docs.Api.{AppState, publish_event, event_of, actor_type_str}
use context_first_docs.Api.Proposals.{create_proposal, apply_proposal}

create_proposal-stored :
    (p : Proposal) (s : InMemoryStore)
    → Map.get p.id s.proposals ≡ none
    → Proposals.create_proposal p s
      ≡ (ok tt, record s { proposals = Map.insert p.id p s.proposals })
unfolding Proposals.create_proposal Map.contains_key
create_proposal-stored p s free = rw (free, Proposals.create_proposal, Map.contains_key) refl

module _ (rt : Runtime) (policies : PolicyConfig) (s : AppState InMemoryStore) where
  -- The state after the proposal was taken in.
  abbrev after_creation : ActorContext → Proposal → AppState InMemoryStore
  after_creation author p = record s {
    store = record s.store {
      proposals = Map.insert p.id p s.store.proposals;
      audit_log = s.store.audit_log ++ event_of rt 0 author proposal_created p.id success ∷ [];
    };
    published = (publish_event rt "proposal_updated" p.id author s).1.published;
  }

  create_proposal-created :
      (author : ActorContext) (p : Proposal)
      → has_role author contributor ≡ true
      → evaluate_on_create p (actor_type_str author) policies ≡ []
      → Map.get p.id s.store.proposals ≡ none
      → create_proposal in_memory rt policies author p s ≡ (ok tt, after_creation author p)
  unfolding create_proposal append_audit
  create_proposal-created author p high fits free =
      rw (high, fits) (rw (create_proposal-stored p s.store free) refl)

  apply_proposal-let_in :
      (actor : ActorContext) (id : String) (body : Option String) {p : Proposal}
      → has_role actor applier ≡ true
      → actor.actor_type ≢ agent
      → evaluate_on_apply rt p (actor_type_str actor) policies ≡ []
      → Map.get id s.store.proposals ≡ some p
      → (in_memory.apply_proposal rt id (unwrap_or body actor.actor_id) s.store).0 ≡ ok tt
      → (apply_proposal in_memory rt policies actor id body s).0 ≡ ok tt
  unfolding apply_proposal Proposals.get_proposal append_audit
  apply_proposal-let_in actor id body high person fits found good =
      let human : actor_type_beq actor.actor_type agent ≡ false = ground arith in
      rw (high, human) (rw found (rw fits (rw good refl)))

-- A proposal that anyone with the contributor role, an agent too, posts as accepted under a free
-- id, that the policies let in and whose updates each name a node of the store, is taken in and is
-- applied with success at once, without any review, by an applier who is no agent, where the
-- policies let it be applied.
pub create_proposal-apply_proposal :
    (rt : Runtime) (policies : PolicyConfig) (author actor : ActorContext) (body : Option String)
    (s : AppState InMemoryStore) (p : Proposal)
    → has_role author contributor ≡ true
    → evaluate_on_create p (actor_type_str author) policies ≡ []
    → has_role actor applier ≡ true
    → actor.actor_type ≢ agent
    → evaluate_on_apply rt p (actor_type_str actor) policies ≡ []
    → Map.get p.id s.store.proposals ≡ none
    → p.status ≡ accepted
    → All (Needs s.store.nodes) p.operations
    → let s' = (create_proposal in_memory rt policies author p s).1 in
      ((create_proposal in_memory rt policies author p s).0 ≡ ok tt)
      × ((apply_proposal in_memory rt policies actor p.id body s').0 ≡ ok tt)
create_proposal-apply_proposal rt policies author actor body s p writes fits high person due free
      was needs =
    let stored : Map.get p.id (Map.insert p.id p s.store.proposals) ≡ some p =
      rw (get-insert p.id p.id p s.store.proposals, eq_refl p.id) refl in
    rw (create_proposal-created rt policies s author p writes fits free) (
      refl,
      apply_proposal-let_in rt policies (after_creation rt policies s author p) actor p.id body high
          person due stored
          (apply_proposal-succeeds rt p.id (unwrap_or body actor.actor_id)
            (after_creation rt policies s author p).store {p = p} stored was needs),
    )
