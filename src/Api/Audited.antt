-- ===== src/Api/Audited.antt =====
-- What the routes of server/src/api/routes.rs record and publish, over the in-memory store.
use context_first_docs.Prelude.{
  String, Option, none, some, [], ◌∷◌, ◌++◌, ◌≡◌, refl, ap, Bool-cases, is_empty, ok, err,
  Result-cases, inl, inr, unwrap_or,
}
use context_first_docs.Types.Json.{Json}
use context_first_docs.Types.Audit.{
  AuditAction, success, proposal_created, proposal_updated, proposal_applied, proposal_withdrawn,
}
use context_first_docs.Types.Proposal.{Proposal}
use context_first_docs.Runtime.{Runtime}
use context_first_docs.Policy.{PolicyConfig}
use context_first_docs.Policy.Create.{evaluate_on_create}
use context_first_docs.Auth.{
  ActorContext, too_low, no_agent, agent, actor_type_beq, contributor, applier, has_role,
}
use context_first_docs.Store.{InMemoryStore, Method}
use context_first_docs.Store.Interface.{in_memory}
use context_first_docs.Store.AuditLog.{append_audit}
use context_first_docs.Policy.Apply.{evaluate_on_apply}
use context_first_docs.Store.Apply.Fields.{apply_proposal-log}
use context_first_docs.Store.Proposals.Frame.{
  create_proposal-SameRest, update_proposal-SameRest, withdraw_proposal-SameRest,
}
use context_first_docs.Api.{
  AppState, ApiError, forbidden, policy_violation, Handler, ◌>>◌, call, ignore, publish_event,
  event_of, actor_type_str,
}
use context_first_docs.Api.Proposals.{
  create_proposal, update_proposal, apply_proposal, withdraw_proposal, apply_allowed, apply_found,
  refuse,
}

-- A handler that, where it succeeds, adds one record of a success to the audit log and publishes one
-- event, and that publishes nothing where it fails.
pub record Announces (rt : Runtime) (actor : ActorContext) (action : AuditAction) (id : String)
    (h : Handler InMemoryStore (Unit {0})) (s : AppState InMemoryStore) : Type 0 where
  pub logged :
      (h s).0 ≡ ok tt
      → (h s).1.store.audit_log ≡ s.store.audit_log ++ event_of rt 0 actor action id success ∷ []
  pub announced :
      (h s).0 ≡ ok tt
      → (h s).1.published ≡ (publish_event rt "proposal_updated" id actor s).1.published
  pub silent : (e : ApiError) → (h s).0 ≡ err e → (h s).1.published ≡ s.published

module _ (rt : Runtime) (actor : ActorContext) (action : AuditAction) (id : String)
    (s : AppState InMemoryStore) where
  -- A call of the store that leaves the log, its record and its event.
  abbrev announced_call : Method InMemoryStore (Unit {0}) → Handler InMemoryStore (Unit {0})
  announced_call m = do
    call m
    ignore (append_audit (event_of rt 0 actor action id success))
    publish_event rt "proposal_updated" id actor

  announced_call-Announces :
      (m : Method InMemoryStore (Unit {0}))
      → (m s.store).1.audit_log ≡ s.store.audit_log
      → Announces rt actor action id (announced_call m) s
  unfolding append_audit
  announced_call-Announces m same = elim (Result-cases (m s.store).0) [
    | inl (done, good) ↦ record {
      logged = λ _. rw good (ap (λ log. log ++ event_of rt 0 actor action id success ∷ []) same);
      announced = λ _. rw good refl;
      silent = λ e h. cc;
    }
    | inr (x, bad) ↦ record { logged = λ h. cc; announced = λ h. cc; silent = λ e h. rw bad refl }
  ]

  refused-Announces :
      (h : Handler InMemoryStore (Unit {0})) (e : ApiError)
      → (h s).0 ≡ err e
      → (h s).1.published ≡ s.published
      → Announces rt actor action id h s
  refused-Announces h e failed same = record {
    logged = λ k. cc;
    announced = λ k. cc;
    silent = λ _ _. same;
  }

  -- Only what a handler does at the given state counts.
  Announces-same :
      (h h' : Handler InMemoryStore (Unit {0}))
      → h s ≡ h' s
      → Announces rt actor action id h' s
      → Announces rt actor action id h s
  Announces-same h h' same a = record {
    logged = λ k. rw same (a.logged (rw same at k));
    announced = λ k. rw same (a.announced (rw same at k));
    silent = λ e k. rw same (a.silent e (rw same at k));
  }

module _ (rt : Runtime) (policies : PolicyConfig) (actor : ActorContext)
    (s : AppState InMemoryStore) where
  create_proposal-Announces :
      (p : Proposal)
      → Announces rt actor proposal_created p.id (create_proposal in_memory rt policies actor p) s
  unfolding create_proposal
  create_proposal-Announces p =
      let violations = evaluate_on_create p (actor_type_str actor) policies in
      elim (Bool-cases (has_role actor contributor)) [
        | inl high ↦ elim (Bool-cases (is_empty violations)) [
          | inl clear ↦
              rw (high, clear)
                (announced_call-Announces rt actor proposal_created p.id s
                  (in_memory.create_proposal p) ((create_proposal-SameRest s.store p).audit_log))
          | inr bad ↦
              rw (high, bad)
                (refused-Announces rt actor proposal_created p.id s
                  (refuse in_memory rt policies actor p.id violations) (policy_violation violations)
                  refl refl)
        ]
        | inr low ↦
            refused-Announces rt actor proposal_created p.id s
              (create_proposal in_memory rt policies actor p)
              (forbidden (too_low actor contributor)) (rw low refl) (rw low refl)
      ]

  update_proposal-Announces :
      (id : String) (updates : Json)
      → Announces rt actor proposal_updated id
          (update_proposal in_memory rt policies actor id updates)
          s
  unfolding update_proposal
  update_proposal-Announces id updates = elim (Bool-cases (has_role actor contributor)) [
    | inl high ↦ rw high (
        announced_call-Announces rt actor proposal_updated id s
          (in_memory.update_proposal rt id updates)
          ((update_proposal-SameRest s.store rt id updates).audit_log))
    | inr low ↦
        refused-Announces rt actor proposal_updated id s
          (update_proposal in_memory rt policies actor id updates)
          (forbidden (too_low actor contributor)) (rw low refl) (rw low refl)
  ]

  withdraw_proposal-Announces :
      (id : String)
      → Announces rt actor proposal_withdrawn id
          (withdraw_proposal in_memory rt policies actor id)
          s
  unfolding withdraw_proposal
  withdraw_proposal-Announces id = elim (Bool-cases (has_role actor contributor)) [
    | inl high ↦ rw high (
        announced_call-Announces rt actor proposal_withdrawn id s (in_memory.withdraw_proposal id)
          ((withdraw_proposal-SameRest s.store id).audit_log))
    | inr low ↦
        refused-Announces rt actor proposal_withdrawn id s
          (withdraw_proposal in_memory rt policies actor id) (forbidden (too_low actor contributor))
          (rw low refl) (rw low refl)
  ]

  apply_allowed-Announces :
      (id by : String)
      → Announces rt actor proposal_applied id (apply_allowed in_memory rt policies actor id by) s
  apply_allowed-Announces id by =
      announced_call-Announces rt actor proposal_applied id s (in_memory.apply_proposal rt id by)
        (apply_proposal-log rt id by s.store)

  apply_found-Announces :
      (id by : String) (o : Option Proposal)
      → Announces rt actor proposal_applied id (apply_found in_memory rt policies actor id by o) s
  unfolding refuse
  apply_found-Announces id by none = apply_allowed-Announces id by
  apply_found-Announces id by (some p) =
      let violations = evaluate_on_apply rt p (actor_type_str actor) policies in
      elim (Bool-cases (is_empty violations)) [
        | inl clear ↦ rw clear (apply_allowed-Announces id by)
        | inr bad ↦ rw bad (
            refused-Announces rt actor proposal_applied id s
              (refuse in_memory rt policies actor id violations) (policy_violation violations) refl
              refl)
      ]

  apply_proposal-Announces :
      (id : String) (body : Option String)
      → Announces rt actor proposal_applied id
          (apply_proposal in_memory rt policies actor id body)
          s
  unfolding apply_proposal
  apply_proposal-Announces id body = elim (Bool-cases (has_role actor applier)) [
    | inl high ↦ elim (Bool-cases (actor_type_beq actor.actor_type agent)) [
      | inl robot ↦
          refused-Announces rt actor proposal_applied id s
            (apply_proposal in_memory rt policies actor id body)
            (forbidden (no_agent actor "apply proposal")) (rw (high, robot) refl)
            (rw (high, robot) refl)
      | inr person ↦
          Announces-same rt actor proposal_applied id s
            (apply_proposal in_memory rt policies actor id body)
            (apply_found in_memory rt policies actor id (unwrap_or body actor.actor_id)
              (in_memory.get_proposal id s.store))
            (rw (high, person) refl)
            (apply_found-Announces id (unwrap_or body actor.actor_id)
              (in_memory.get_proposal id s.store))
    ]
    | inr low ↦
        refused-Announces rt actor proposal_applied id s
          (apply_proposal in_memory rt policies actor id body) (forbidden (too_low actor applier))
          (rw low refl) (rw low refl)
  ]

  -- Creating, changing, withdrawing and applying a proposal each record exactly one event in the
  -- audit log and publish exactly one where they succeed, and publish nothing where they fail.
  pub mutations-Announce :
      (p : Proposal) (id : String) (updates : Json) (body : Option String)
      → Announces rt actor proposal_created p.id (create_proposal in_memory rt policies actor p) s
        × Announces rt actor proposal_updated id
            (update_proposal in_memory rt policies actor id updates)
            s
        × Announces rt actor proposal_withdrawn id
            (withdraw_proposal in_memory rt policies actor id)
            s
        × Announces rt actor proposal_applied id
            (apply_proposal in_memory rt policies actor id body)
            s
  mutations-Announce p id updates body = (
    create_proposal-Announces p,
    update_proposal-Announces id updates,
    withdraw_proposal-Announces id,
    apply_proposal-Announces id body,
  )
