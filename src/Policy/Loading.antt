-- ===== src/Policy/Loading.antt =====
-- What a policies file of server/src/policy.rs that cannot be used leaves.
use context_first_docs.Prelude.{
  ◌≤◌, String, Option, none, some, List, [], ◌≡◌, ◌↔◌, ◌⊎◌, refl, arith, false, string_eq, ok, err,
  any, All,
}
use context_first_docs.Sensitivity.{internal}
use context_first_docs.Types.Proposal.{Proposal, Review, accepted}
use context_first_docs.Runtime.{Runtime}
use context_first_docs.Disk.{FilePath, Disk, file_exists, read_to_string}
use context_first_docs.Policy.{PolicyConfig, no_rules, load_from_file, agent_max_sensitivity}
use context_first_docs.Policy.Create.{evaluate_on_create}
use context_first_docs.Policy.Create.Decision.{LabelsAtMost, evaluate_on_create-agent}
use context_first_docs.Policy.Review.{accept_count, rejects, evaluate_on_review}
use context_first_docs.Policy.Review.Decision.{evaluate_on_review-accepted}
use context_first_docs.Policy.Apply.{evaluate_on_apply}

-- The file is not there, or cannot be read, or does not parse.
abbrev pub IsUnusable : (String → Option PolicyConfig) → FilePath → Disk → Type 0
IsUnusable parse path d =
    (file_exists path d ≡ false)
    ⊎ ((e : String) × ((read_to_string path d).0 ≡ err e))
    ⊎ ((text : String) × ((read_to_string path d).0 ≡ ok text) × (parse text ≡ none))

load_from_file-unusable :
    (parse : String → Option PolicyConfig) (path : FilePath) (d : Disk)
    → IsUnusable parse path d
    → load_from_file parse path d ≡ no_rules
unfolding load_from_file
load_from_file-unusable parse path d bad = ground (arith, bad)

-- Nothing but the built-in rules is asked for.
abbrev pub IsUnruled : Runtime → Proposal → List Review → PolicyConfig → Type 0
IsUnruled rt p reviews policies =
    ((actor_type : String) → evaluate_on_apply rt p actor_type policies ≡ [])
    × ((evaluate_on_create p "agent" policies ≡ []) ↔ All (LabelsAtMost internal) p.operations)
    × (((evaluate_on_review p reviews policies).0 ≡ some accepted)
        ↔ ((any rejects reviews ≡ false) × (1 ≤ accept_count reviews)))
    × (agent_max_sensitivity policies ≡ internal)

no_rules-apply :
    (rt : Runtime) (p : Proposal) (actor_type : String)
    → evaluate_on_apply rt p actor_type no_rules ≡ []
unfolding evaluate_on_apply
no_rules-apply rt p actor_type = refl

no_rules-level : agent_max_sensitivity no_rules ≡ internal
unfolding agent_max_sensitivity
no_rules-level = refl

no_rules-IsUnruled :
    (rt : Runtime) (p : Proposal) (reviews : List Review) → IsUnruled rt p reviews no_rules
no_rules-IsUnruled rt p reviews =
    let (created_to, created_from) = evaluate_on_create-agent p no_rules in
    let (accepted_to, accepted_from) = evaluate_on_review-accepted p reviews no_rules in
    (
      no_rules-apply rt p,
      (λ e. rw no_rules-level at (created_to e).1, λ h. created_from (tt, rw no_rules-level h)),
      (
        λ e. let (calm, enough, all) = accepted_to e in (calm, enough),
        λ h. accepted_from (h.0, h.1, tt),
      ),
      no_rules-level,
    )

-- Where the policies file is missing, cannot be read or does not parse, the policies that are left
-- refuse no application, whoever applies; an agent may create exactly the proposals that create no
-- node with a label above internal; reviews decide for acceptance exactly when none rejects and at
-- least one accepts; and agents may read up to the internal level.
pub load_from_file-open :
    (parse : String → Option PolicyConfig) (path : FilePath) (d : Disk) (rt : Runtime)
    (p : Proposal) (reviews : List Review)
    → IsUnusable parse path d
    → IsUnruled rt p reviews (load_from_file parse path d)
load_from_file-open parse path d rt p reviews bad =
    rw (load_from_file-unusable parse path d bad) (no_rules-IsUnruled rt p reviews)
