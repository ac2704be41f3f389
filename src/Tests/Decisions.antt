-- ===== src/Tests/Decisions.antt =====
-- Policies, roles and tokens.
use context_first_docs.Prelude.{some, [], ◌∷◌, ◌≡◌, ◌↔◌, refl, false, All, ok, ◌==◌, string_eq}
use context_first_docs.Sensitivity.{internal, public, agent_can_read}
use context_first_docs.Policy.{
  PolicyConfig, min_approvals, required_reviewer_role, change_window, agent_restriction,
  agent_proposal_limit, egress_control, agent_max_sensitivity,
}
use context_first_docs.Policy.Create.{evaluate_on_create}
use context_first_docs.Policy.Create.Decision.{KeepsLimit, LabelsAtMost, evaluate_on_create-agent}
use context_first_docs.Policy.Apply.{evaluate_on_apply}
use context_first_docs.Policy.Apply.Decision.{Permits, evaluate_on_apply_iff}
use context_first_docs.Auth.{human}
use context_first_docs.Auth.Token.{Claims, AuthConfig, Crypto, actor_of, extract_actor}
use context_first_docs.Auth.Token.Sound.{Admitted, extract_actor-Admitted}
use context_first_docs.Api.Nodes.{sensitivity_of}
use context_first_docs.Tests.Data.{rt, node, good}

abbrev pub policies : PolicyConfig
policies = record {
  rules =
      min_approvals [] 2
      ∷ required_reviewer_role ("decision" ∷ []) "lead"
      ∷ change_window (0 ∷ 1 ∷ []) 9 17
      ∷ agent_restriction ("apply" ∷ [])
      ∷ agent_proposal_limit 2 100
      ∷ egress_control internal []
      ∷ [];
}

evaluate_on_create-agent_example : (evaluate_on_create good "agent" policies ≡ []) ↔ (
    All (KeepsLimit good) policies.rules
    × All (LabelsAtMost (agent_max_sensitivity policies)) good.operations)
evaluate_on_create-agent_example = evaluate_on_create-agent good policies

-- Agents are kept to what is public.
abbrev for_public : PolicyConfig
for_public = record { rules = egress_control public [] ∷ [] }

-- A node without a label is internal, which an agent may not read then, but may create.
unlabelled_passes : evaluate_on_create good "agent" for_public ≡ []
unfolding evaluate_on_create
unlabelled_passes = refl

unlabelled_is_hidden :
    agent_can_read (sensitivity_of (node "b" "second")) (agent_max_sensitivity for_public) ≡ false
unfolding agent_can_read agent_max_sensitivity
unlabelled_is_hidden = refl

evaluate_on_apply_iff_example :
    (evaluate_on_apply rt good "agent" policies ≡ []) ↔ All (Permits rt "agent") policies.rules
evaluate_on_apply_iff_example = evaluate_on_apply_iff rt good "agent" policies

abbrev claims : Claims
claims = record { sub = "cid"; actor_type = human; roles = []; exp = 0 }

-- A library that accepts every code under one secret.
abbrev crypto : Crypto
crypto = record {
  base64_decode = λ s. ok (1 ∷ []);
  new_mac = λ s. ok tt;
  verify = λ secret message signature. secret == "secret";
  parse_claims = λ bytes. ok claims;
  now_secs = 100;
}

abbrev config : AuthConfig
config = record { disabled = false; secret = some "secret" }

let_in : extract_actor crypto (some "Bearer a.b.c") config ≡ ok (actor_of claims)
unfolding extract_actor
let_in = refl

extract_actor-Admitted_example : Admitted crypto (some "Bearer a.b.c") config (actor_of claims)
extract_actor-Admitted_example =
    extract_actor-Admitted crypto (some "Bearer a.b.c") config (actor_of claims) refl let_in
