-- ===== src/Auth.antt =====
-- server/src/auth.rs and rbac.rs: actors, roles, and the checks of the handlers.
pub mod Token
pub mod Roles
use Prim.Native.String.{◌++◌}
use context_first_docs.Prelude.{
  ℕ, String, List, [], ◌∷◌, Bool, true, false, PartialEq, ◌≡◌, ◌↔◌, arith, leb, any, Result, ok,
  err, ◌==◌, if◌then◌else◌,
}

pub data ActorType : Type 0 where
  human agent system : ActorType

abbrev pub actor_type_beq : ActorType → ActorType → Bool
actor_type_beq human human = true
actor_type_beq agent agent = true
actor_type_beq system system = true
actor_type_beq _ _ = false

pub actor_type_beq_iff : (a b : ActorType) → (actor_type_beq a b ≡ true) ↔ (a ≡ b)
actor_type_beq_iff a b = ground arith

instance abbrev pub actor_type_eq : PartialEq ActorType
actor_type_eq = record { same = actor_type_beq; same_iff = actor_type_beq_iff }

pub data Role : Type 0 where
  reader contributor reviewer applier admin : Role

abbrev pub rank : Role → ℕ
rank reader = 0
rank contributor = 1
rank reviewer = 2
rank applier = 3
rank admin = 4

-- `Role::includes`
unfoldable pub includes : Role → Role → Bool
includes own other = leb (rank other) (rank own)

pub record ActorContext : Type 0 where
  pub actor_id : String
  pub actor_type : ActorType
  pub roles : List Role

-- `ActorContext::has_role`
unfoldable pub has_role : ActorContext → Role → Bool
unfolding includes
has_role actor role = any (λ own. includes own role) actor.roles

-- `ActorContext::dev_default`
abbrev pub dev_default : ActorContext
dev_default = record { actor_id = "dev-user"; actor_type = human; roles = admin ∷ [] }

-- The derived `Debug` texts.
abbrev role_str : Role → String
role_str reader = "Reader"
role_str contributor = "Contributor"
role_str reviewer = "Reviewer"
role_str applier = "Applier"
role_str admin = "Admin"

abbrev commas : List Role → String
commas [] = ""
commas (r ∷ []) = role_str r
commas (r ∷ s ∷ rs) = role_str r ++ (", " ++ commas (s ∷ rs))

-- `rbac::Forbidden`
pub record Forbidden : Type 0 where
  pub message : String

abbrev pub too_low : ActorContext → Role → Forbidden
too_low actor role = record {
  message =
      "insufficient role: requires "
      ++ (role_str role
          ++ (", actor " ++ (actor.actor_id ++ (" has [" ++ (commas actor.roles ++ "]")))));
}

-- `rbac::require_role`
unfoldable pub require_role : ActorContext → Role → Result Forbidden (Unit {0})
unfolding has_role
require_role actor role = if has_role actor role then ok tt else err (too_low actor role)

abbrev pub no_agent : ActorContext → String → Forbidden
no_agent actor action = record {
  message = "agents cannot " ++ (action ++ (": agent " ++ actor.actor_id));
}

-- `rbac::reject_agent`
unfoldable pub reject_agent : ActorContext → String → Result Forbidden (Unit {0})
reject_agent actor action = if actor.actor_type == agent then err (no_agent actor action) else ok tt
