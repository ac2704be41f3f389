-- ===== src/Store/Commands/Log.antt =====
-- The audit log of server/src/store/in_memory.rs only grows, and the revisions only count up.
use mathlib.Core.List.{append-nil, append_assoc}
use context_first_docs.Prelude.{List, [], ◌∷◌, ◌++◌, ◌≡◌, refl, sym, ap, ◌∙◌}
use context_first_docs.Types.Audit.{AuditEvent}
use context_first_docs.Runtime.{Runtime}
use context_first_docs.Store.{InMemoryStore}
use context_first_docs.Store.Apply.Fields.{apply_proposal-log}
use context_first_docs.Store.Proposals.Frame.{
  create_proposal-SameRest, update_proposal-SameRest, submit_review-SameRest,
  withdraw_proposal-SameRest, add_proposal_comment-SameRest,
}
use context_first_docs.Store.AuditLog
use context_first_docs.Store.Commands.{
  Command, create_proposal, update_proposal, submit_review, apply_proposal, withdraw_proposal,
  add_proposal_comment, reset, append_audit, at_time, execute, run,
}

-- The events that a sequence of calls records.
abbrev pub recorded : List Command → List AuditEvent
recorded [] = []
recorded (append_audit e ∷ cs) = e ∷ recorded cs
recorded (_ ∷ cs) = recorded cs

abbrev pub recorded_by : Command → List AuditEvent
recorded_by (append_audit e) = e ∷ []
recorded_by _ = []

pub execute-log :
    (rt : Runtime) (c : Command) (s : InMemoryStore)
    → (execute rt c s).1.audit_log ≡ s.audit_log ++ recorded_by c
unfolding execute
execute-log rt (append_audit e) s = unfold AuditLog.append_audit in refl
execute-log rt (create_proposal p) s = (create_proposal-SameRest s p).audit_log ∙ sym (append-nil _)
execute-log rt (update_proposal id updates) s =
    (update_proposal-SameRest s rt id updates).audit_log ∙ sym (append-nil _)
execute-log rt (submit_review r) s = (submit_review-SameRest s r).audit_log ∙ sym (append-nil _)
execute-log rt (apply_proposal now id by) s =
    apply_proposal-log (at_time rt now) id by s ∙ sym (append-nil _)
execute-log rt (withdraw_proposal id) s =
    (withdraw_proposal-SameRest s id).audit_log ∙ sym (append-nil _)
execute-log rt (add_proposal_comment id c) s =
    (add_proposal_comment-SameRest s id c).audit_log ∙ sym (append-nil _)
execute-log rt reset s = unfold AuditLog.reset in sym (append-nil _)

recorded-cons : (c : Command) (cs : List Command) → recorded_by c ++ recorded cs ≡ recorded (c ∷ cs)
recorded-cons (append_audit e) cs = refl
recorded-cons _ cs = refl

-- The audit log after any calls of the store, a reset among them, is the log before them followed
-- by the events recorded since, in sequence.
pub run-audit_log :
    (rt : Runtime) (cs : List Command) (s : InMemoryStore)
    → (run rt cs s).audit_log ≡ s.audit_log ++ recorded cs
unfolding run
run-audit_log rt [] s = sym (append-nil _)
run-audit_log rt (c ∷ cs) s =
    run-audit_log rt cs (execute rt c s).1
    ∙ (ap (λ log. log ++ recorded cs) (execute-log rt c s)
        ∙ (append_assoc s.audit_log (recorded_by c) (recorded cs)
            ∙ ap (λ es. s.audit_log ++ es) (recorded-cons c cs)))
