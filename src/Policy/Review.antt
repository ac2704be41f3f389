-- ===== src/Policy/Review.antt =====
-- `evaluate_on_review` of server/src/policy.rs.
pub mod Decision
use Prim.Native.String.{◌++◌}
use mathlib.Core.List
use context_first_docs.Prelude.{
  ℕ, String, Option, none, some, List, [], ◌∷◌, Bool, ◌&&◌, if◌then◌else◌, leb, ◌==◌, string_eq,
  length, any, retain, is_empty, is_some_and, max, ◌%◌, ◌^◌,
}
use context_first_docs.Types.Proposal.{
  Proposal, ProposalStatus, accepted, rejected, accept, reject, action_eq,
}
use context_first_docs.Types.Proposal as Types
use context_first_docs.Policy.{
  PolicyViolation, PolicyRule, min_approvals, required_reviewer_role, PolicyConfig, concerns,
}

abbrev pub accepts : Types.Review → Bool
accepts r = r.action == accept

abbrev pub rejects : Types.Review → Bool
rejects r = r.action == reject

-- An accepting review by someone in this role.
abbrev pub accepts_as : String → Types.Review → Bool
accepts_as role r = accepts r && is_some_and r.reviewer_role (λ own. own == role)

-- `min_approvals_needed` after the loop, from the value before it
unfoldable pub approvals_needed : Proposal → List PolicyRule → ℕ → ℕ
approvals_needed p [] needed = needed
approvals_needed p (min_approvals node_types least ∷ rules) needed =
    approvals_needed p rules (if concerns p node_types then max needed least else needed)
approvals_needed p (_ ∷ rules) needed = approvals_needed p rules needed

unfoldable pub missing_role : Proposal → List Types.Review → PolicyRule → List PolicyViolation
missing_role p reviews (required_reviewer_role node_types role) =
    if concerns p node_types
    then (if any (accepts_as role) reviews
        then []
        else record {
          rule = "required_reviewer_role";
          message = "requires reviewer with role '" ++ (role ++ "'");
        }
          ∷ [])
    else []
missing_role p reviews _ = []

unfoldable pub missing_roles : Proposal → List Types.Review → List PolicyRule → List PolicyViolation
unfolding missing_role
missing_roles p reviews [] = []
missing_roles p reviews (rule ∷ rules) =
    List.◌++◌ (missing_role p reviews rule) (missing_roles p reviews rules)

-- `.count() as u32`
abbrev pub accept_count : List Types.Review → ℕ
accept_count reviews = length (retain accepts reviews) % 2 ^ 32

-- `evaluate_on_review`
unfoldable pub evaluate_on_review :
    Proposal → List Types.Review → PolicyConfig → Option ProposalStatus × List PolicyViolation
unfolding approvals_needed missing_roles
evaluate_on_review p reviews policies =
    if any rejects reviews
    then (some rejected, [])
    else let violations = missing_roles p reviews policies.rules in
      if leb (approvals_needed p policies.rules 1) (accept_count reviews) && is_empty violations
      then (some accepted, violations)
      else (none, violations)
