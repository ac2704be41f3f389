-- ===== src/Policy/Review/Decision.antt =====
-- What `evaluate_on_review` of server/src/policy.rs decides, rule by rule.
use context_first_docs.Prelude.{
  ℕ, ◌≤◌, max, String, some, List, [], ◌∷◌, ◌≡◌, ◌↔◌, refl, arith, true, false, if◌then◌else◌, any,
  All, append-eq-nil_iff, is_empty,
}
use context_first_docs.Types.Proposal.{Proposal, ProposalStatus, accepted, rejected}
use context_first_docs.Types.Proposal as Types
use context_first_docs.Policy.{
  PolicyRule, min_approvals, required_reviewer_role, change_window, agent_restriction,
  agent_proposal_limit, egress_control, PolicyConfig, concerns,
}
use context_first_docs.Policy.Review.{
  rejects, accepts_as, accept_count, approvals_needed, missing_role, missing_roles,
  evaluate_on_review,
}

module _ (p : Proposal) (reviews : List Types.Review) where
  -- The reviews satisfy a rule, where it concerns the proposal.
  abbrev pub Meets : PolicyRule → Type 0
  Meets (min_approvals node_types least) =
      concerns p node_types ≡ true → least ≤ accept_count reviews
  Meets (required_reviewer_role node_types role) =
      concerns p node_types ≡ true → any (accepts_as role) reviews ≡ true
  Meets _ = Unit

  missing_role_iff :
      (node_types : List String) (role : String)
      → (missing_role p reviews (required_reviewer_role node_types role) ≡ [])
        ↔ (concerns p node_types ≡ true → any (accepts_as role) reviews ≡ true)
  unfolding missing_role
  missing_role_iff node_types role = ground arith

  met_iff :
      (rules : List PolicyRule) (needed : ℕ)
      → ((approvals_needed p rules needed ≤ accept_count reviews)
          × (missing_roles p reviews rules ≡ []))
        ↔ ((needed ≤ accept_count reviews) × All Meets rules)
  unfolding approvals_needed missing_roles
  met_iff [] needed = (λ h. (h.0, tt), λ h. (h.0, refl))
  met_iff (min_approvals node_types least ∷ rules) needed =
      grind (arith, met_iff rules (if concerns p node_types then max needed least else needed))
  met_iff (required_reviewer_role node_types role ∷ rules) needed =
      let own = missing_role_iff node_types role in
      let rest = met_iff rules needed in
      let split =
        append-eq-nil_iff (missing_role p reviews (required_reviewer_role node_types role))
          (missing_roles p reviews rules) in
      (
        λ (least, none_missing).
            let (here, later) = split.0 none_missing in
            let (fits, all) = rest.0 (least, later) in (fits, (own.0 here, all)),
        λ (fits, (meets, all)).
            let (least, later) = rest.1 (fits, all) in (least, split.1 (own.1 meets, later)),
      )
  met_iff (change_window days start end ∷ rules) needed = grind (arith, met_iff rules needed)
  met_iff (agent_restriction actions ∷ rules) needed = grind (arith, met_iff rules needed)
  met_iff (agent_proposal_limit most length ∷ rules) needed = grind (arith, met_iff rules needed)
  met_iff (egress_control most to ∷ rules) needed = grind (arith, met_iff rules needed)

is_empty_iff {ℓ} : {A : Type ℓ} (xs : List A) → (is_empty xs ≡ true) ↔ (xs ≡ [])
is_empty_iff [] = (λ _. refl, λ _. refl)
is_empty_iff (x ∷ xs) = (λ e. cc, λ e. cc)

-- The policy decides for rejection exactly when some review rejects.
pub evaluate_on_review-rejected :
    (p : Proposal) (reviews : List Types.Review) (policies : PolicyConfig)
    → ((evaluate_on_review p reviews policies).0 ≡ some rejected) ↔ (any rejects reviews ≡ true)
unfolding evaluate_on_review
evaluate_on_review-rejected p reviews policies = ground arith

module _ (p : Proposal) (reviews : List Types.Review) (policies : PolicyConfig) where
  accepted-parts :
      (evaluate_on_review p reviews policies).0 ≡ some accepted
      → (any rejects reviews ≡ false)
        × (approvals_needed p policies.rules 1 ≤ accept_count reviews)
        × (is_empty (missing_roles p reviews policies.rules) ≡ true)
  unfolding evaluate_on_review
  accepted-parts e = ground arith

  accepted-intro :
      any rejects reviews ≡ false
      → approvals_needed p policies.rules 1 ≤ accept_count reviews
      → is_empty (missing_roles p reviews policies.rules) ≡ true
      → (evaluate_on_review p reviews policies).0 ≡ some accepted
  unfolding evaluate_on_review
  accepted-intro calm enough none_missing = ground arith

pub evaluate_on_review-accepted :
    (p : Proposal) (reviews : List Types.Review) (policies : PolicyConfig)
    → ((evaluate_on_review p reviews policies).0 ≡ some accepted) ↔ (
        (any rejects reviews ≡ false)
        × (1 ≤ accept_count reviews)
        × All (Meets p reviews) policies.rules)
evaluate_on_review-accepted p reviews policies =
    let met = met_iff p reviews policies.rules 1 in
    let nothing = is_empty_iff (missing_roles p reviews policies.rules) in
    (
      λ e.
          let (calm, enough, none_missing) = accepted-parts p reviews policies e in
          let (some_accept, all) = met.0 (enough, nothing.0 none_missing) in
          (calm, some_accept, all),
      λ (calm, some_accept, all).
          let (enough, none_missing) = met.1 (some_accept, all) in
          accepted-intro p reviews policies calm enough (nothing.1 none_missing),
    )
