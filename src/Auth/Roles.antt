-- ===== src/Auth/Roles.antt =====
-- The hierarchy of roles of server/src/auth.rs and the checks of rbac.rs.
use mathlib.Core.List.{Memᴰ}
use mathlib.Core.List.Memᴰ
use context_first_docs.Prelude.{
  ◌≤◌, String, List, [], ◌∷◌, ◌≡◌, ◌≢◌, ◌↔◌, refl, ap, arith, true, any, Bool-cases, inl, inr, ok,
}
use context_first_docs.Auth.{
  agent, Role, rank, includes, ActorContext, has_role, require_role, reject_agent,
}

includes_iff : (own other : Role) → (includes own other ≡ true) ↔ (rank other ≤ rank own)
unfolding includes
includes_iff own other = ground arith

any-includes :
    (role own : Role) {roles : List Role}
    → Memᴰ own roles
    → includes own role ≡ true
    → any (λ r. includes r role) roles ≡ true
any-includes role own (Memᴰ.head {x = r} e) h = ground (arith, ap (λ s. includes s role) e)
any-includes role own (Memᴰ.tail {x = r} m) h = ground (arith, any-includes role own m h)

any-includes_iff :
    (roles : List Role) (role : Role)
    → (any (λ own. includes own role) roles ≡ true)
      ↔ ((own : Role) × Memᴰ own roles × (rank role ≤ rank own))
any-includes_iff [] role = (λ e. cc, λ h. absurd (Memᴰ.not-nil h.1))
any-includes_iff (r ∷ rs) role = (
  λ e. elim (Bool-cases (includes r role)) [
    | inl here ↦ (r, Memᴰ.head refl, (includes_iff r role).0 here)
    | inr other ↦
        let (own, among, high) = (any-includes_iff rs role).0 (ground arith) in
        (own, Memᴰ.tail among, high)
  ],
  λ h. any-includes role h.0 h.1 ((includes_iff h.0 role).1 h.2),
)

-- An actor has a role exactly when one of its own roles stands as high.
pub has_role_iff :
    (actor : ActorContext) (role : Role)
    → (has_role actor role ≡ true) ↔ ((own : Role) × Memᴰ own actor.roles × (rank role ≤ rank own))
unfolding has_role
has_role_iff actor role = any-includes_iff actor.roles role

-- Who holds a role holds every lower one.
pub has_role_mono :
    (actor : ActorContext) (high low : Role)
    → rank low ≤ rank high
    → has_role actor high ≡ true
    → has_role actor low ≡ true
has_role_mono actor high low le h =
    let (own, among, fits) = (has_role_iff actor high).0 h in
    (has_role_iff actor low).1 (own, among, omega arith)

pub require_role-ok :
    (actor : ActorContext) (role : Role)
    → (require_role actor role ≡ ok tt) ↔ (has_role actor role ≡ true)
unfolding require_role
require_role-ok actor role = ground arith

pub reject_agent-ok :
    (actor : ActorContext) (action : String)
    → (reject_agent actor action ≡ ok tt) ↔ (actor.actor_type ≢ agent)
unfolding reject_agent
reject_agent-ok actor action = ground arith
