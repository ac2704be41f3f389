-- ===== src/Retention/Untouched.antt =====
-- What the background task of server/src/retention.rs does to the in-memory store.
use native.Mathlib.Nat.{zero-mul, mul-zero, suc-mul, add_comm}
use context_first_docs.Prelude.{
  sym, ℕ, zero, suc, ◌+◌, ◌*◌, List, [], ◌∷◌, ◌≡◌, refl, ◌∙◌, arith, length, length-append,
}
use context_first_docs.Runtime.{Runtime}
use context_first_docs.Store.{InMemoryStore}
use context_first_docs.Store.AuditLog.{append_audit}
use context_first_docs.Store.Interface.{in_memory}
use context_first_docs.Retention.{
  RetentionRule, RetentionConfig, check_rules, ticks, spawn_retention_task,
}

-- The stores differ only in the log, which has grown by `n` events.
pub record OnlyLogged (n : ℕ) (s t : InMemoryStore) : Type 0 where
  pub nodes : t.nodes ≡ s.nodes
  pub proposals : t.proposals ≡ s.proposals
  pub reviews : t.reviews ≡ s.reviews
  pub revision_counter : t.revision_counter ≡ s.revision_counter
  pub logged : length t.audit_log ≡ length s.audit_log + n

OnlyLogged-trans :
    (n m k : ℕ) (s t u : InMemoryStore)
    → OnlyLogged n s t
    → OnlyLogged m t u
    → n + m ≡ k
    → OnlyLogged k s u
OnlyLogged-trans n m k s t u a b e = record {
  nodes = b.nodes ∙ a.nodes;
  proposals = b.proposals ∙ a.proposals;
  reviews = b.reviews ∙ a.reviews;
  revision_counter = b.revision_counter ∙ a.revision_counter;
  logged = omega (arith, a.logged, b.logged);
}

OnlyLogged-refl : (s : InMemoryStore) → OnlyLogged 0 s s
OnlyLogged-refl s = record {
  nodes = refl;
  proposals = refl;
  reviews = refl;
  revision_counter = refl;
  logged = omega arith;
}

module _ (rt : Runtime) where
  check_rules-OnlyLogged :
      (rules : List RetentionRule) (s : InMemoryStore)
      → OnlyLogged (length rules) s (check_rules in_memory rt rules s)
  unfolding check_rules append_audit
  check_rules-OnlyLogged [] s = OnlyLogged-refl s
  check_rules-OnlyLogged (rule ∷ rules) s =
      OnlyLogged-trans 1 (length rules) (suc (length rules)) s _ _
        (record {
          nodes = refl;
          proposals = refl;
          reviews = refl;
          revision_counter = refl;
          logged = length-append s.audit_log _;
        })
        (check_rules-OnlyLogged rules _) (omega arith)

  ticks-OnlyLogged :
      (rules : List RetentionRule) (n : ℕ) (s : InMemoryStore)
      → OnlyLogged (n * length rules) s (ticks in_memory rt rules n s)
  unfolding ticks
  ticks-OnlyLogged rules zero s = rw (zero-mul (length rules)) (OnlyLogged-refl s)
  ticks-OnlyLogged rules (suc n) s =
      OnlyLogged-trans (length rules) (n * length rules) (suc n * length rules) s _ _
        (check_rules-OnlyLogged rules s)
        (ticks-OnlyLogged rules n (check_rules in_memory rt rules s))
        (add_comm (length rules) (n * length rules) ∙ sym (suc-mul n (length rules)))

spawned :
    (rt : Runtime) (rules : List RetentionRule) (interval n : ℕ) (s : InMemoryStore)
    → let config : RetentionConfig = record { rules = rules; check_interval_secs = interval } in
      OnlyLogged (n * length rules) s (spawn_retention_task in_memory rt config n s)
unfolding spawn_retention_task
spawned rt [] interval n s = rw (mul-zero n) (OnlyLogged-refl s)
spawned rt (rule ∷ rules) interval n s = ticks-OnlyLogged rt (rule ∷ rules) n s

-- After any number of its ticks the retention task has changed nothing of the in-memory store but
-- the audit log, which has grown by one event for each rule and tick.
pub spawn_retention_task-OnlyLogged :
    (rt : Runtime) (config : RetentionConfig) (n : ℕ) (s : InMemoryStore)
    → OnlyLogged (n * length config.rules) s (spawn_retention_task in_memory rt config n s)
spawn_retention_task-OnlyLogged rt config n s =
    spawned rt config.rules config.check_interval_secs n s
