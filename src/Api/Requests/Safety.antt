-- ===== src/Api/Requests/Safety.antt =====
-- What stays true of a server over any sequence of requests to the routes of
-- server/src/api/routes.rs, let in or not.
use context_first_docs.Prelude.{
  ℕ, String, Option, none, some, List, [], ◌∷◌, ◌++◌, ◌≡◌, refl, ◌∙◌, ap, All, Mem-All, arith, sym,
}
use mathlib.Core.List.{Memᴰ, append-nil, append_assoc}
use context_first_docs.Prelude.Map
use context_first_docs.Types.Node.{ContextNode}
use context_first_docs.Types.Audit.{AuditEvent}
use context_first_docs.Runtime.{Runtime, content_hash}
use context_first_docs.Policy.{PolicyConfig}
use context_first_docs.Auth.Token.{Crypto, AuthConfig, extract_actor}
use context_first_docs.Auth.Token
use context_first_docs.Store.{InMemoryStore, new}
use context_first_docs.Store.Interface.{ContextStore, in_memory}
use context_first_docs.Store.Commands.{
  Command, create_proposal, update_proposal, submit_review, apply_proposal, withdraw_proposal,
  reset, append_audit, execute,
}
use context_first_docs.Store.Commands.Safety.{IsGenuine, AllGenuine, execute-AllGenuine}
use context_first_docs.Store.Commands.Log.{recorded_by, execute-log}
use context_first_docs.Api.{AppState, ServerEvent}
use context_first_docs.Api.Events.{Message, show_message, stream_of}
use context_first_docs.Api.Requests.{Moment, at_moment, Visit, visit, visits}
use context_first_docs.Api.Requests.Kept.{IsKept, Holds, Unscoped}
use context_first_docs.Api.Requests.Handlers.{serve-Keeps}

-- A server that has just started on a store.
abbrev pub started : {S : Type 0} → S → AppState S
started store = record { store = store; published = [] }

module _ {S : Type 0} (P : S → Type 0) (cs : ContextStore S) (policies : PolicyConfig)
    (trim : String → String) (rt : Runtime) (cr : Crypto) (config : AuthConfig)
    (kept : (m : Moment) → IsKept cs (at_moment rt m) P) where
  visit-Keeps :
      (v : Visit) (s : AppState S) → Holds P s → Holds P (visit cs policies trim rt cr config v s).1
  unfolding visit
  visit-Keeps v s h =
      Token.call-cases (record cr { now_secs = v.moment.now_secs })
        (λ (r : Option ℕ × AppState S). Holds P r.1) _ _ v.authorization config (λ status. h)
        (λ actor.
          serve-Keeps P cs (at_moment rt v.moment) (kept v.moment) actor policies trim v.request s
            h)

  visits-Keeps :
      (vs : List Visit) (s : AppState S)
      → Holds P s
      → Holds P (visits cs policies trim rt cr config vs s)
  unfolding visits
  visits-Keeps [] s h = h
  visits-Keeps (v ∷ vs) s h =
      visits-Keeps vs (visit cs policies trim rt cr config v s).1 (visit-Keeps v s h)

-- What every command keeps, every method of the in-memory store keeps.
in_memory-IsKept :
    (rt : Runtime) (P : InMemoryStore → Type 0)
    → ((c : Command) (s : InMemoryStore) → P s → P (execute rt c s).1)
    → IsKept in_memory rt P
unfolding execute
in_memory-IsKept rt P keep = record {
  create_proposal = λ p. keep (create_proposal p);
  update_proposal = λ id updates. keep (update_proposal id updates);
  submit_review = λ r. keep (submit_review r);
  apply_proposal = λ id by. keep (apply_proposal rt.now id by);
  withdraw_proposal = λ id. keep (withdraw_proposal id);
  reset = keep reset;
  append_audit = λ e. keep (append_audit e);
}

-- The events that a log has gained.
abbrev Extends : List AuditEvent → List AuditEvent → Type 0
Extends log log' = (gained : List AuditEvent) × (log' ≡ log ++ gained)

execute-Extends :
    (rt : Runtime) (log : List AuditEvent) (c : Command) (s : InMemoryStore)
    → Extends log s.audit_log
    → Extends log (execute rt c s).1.audit_log
execute-Extends rt log c s (gained, e) = (
  gained ++ recorded_by c,
  execute-log rt c s ∙ (ap (λ l. l ++ recorded_by c) e ∙ append_assoc log gained (recorded_by c)),
)

-- The hashes of nodes do not depend on the moment.
IsGenuine-moment :
    (rt : Runtime) (m : Moment) (k : String) (found : Option ContextNode)
    → IsGenuine rt k found ≡ IsGenuine (at_moment rt m) k found
IsGenuine-moment rt m k none = refl
IsGenuine-moment rt m k (some n) = refl

execute-genuine :
    (rt : Runtime) (m : Moment) (c : Command) (s : InMemoryStore)
    → AllGenuine rt s.nodes
    → AllGenuine rt (execute (at_moment rt m) c s).1.nodes
execute-genuine rt m c s h =
    let now : AllGenuine (at_moment rt m) s.nodes = record {
      at_key = λ k. rw (sym (IsGenuine-moment rt m k (Map.get k s.nodes))) (h.at_key k);
    } in
    let later = execute-AllGenuine (at_moment rt m) c s now in
    record { at_key = λ k. rw (IsGenuine-moment rt m k) (later.at_key k) }

module _ (policies : PolicyConfig) (trim : String → String) (rt : Runtime) (cr : Crypto)
    (config : AuthConfig) (vs : List Visit) where
  -- After any requests to a server on the in-memory store that started empty, at any moments and
  -- whether they are let in or not, every node stands under its own key and carries the hash of
  -- its present content.
  pub visits-AllGenuine :
      AllGenuine rt (visits in_memory policies trim rt cr config vs (started new)).store.nodes
  unfolding content_hash
  visits-AllGenuine =
      (visits-Keeps (λ s. AllGenuine rt s.nodes) in_memory policies trim rt cr config
        (λ m. in_memory-IsKept (at_moment rt m) _ (execute-genuine rt m)) vs (started new)
        (record { at_key = λ k. unfold Map.get in tt }, tt)).0

  -- Whatever requests a server on the in-memory store answers, refuses or fails, among them resets
  -- and erasures, the events of the audit log stay in their sequence, and new ones stand behind
  -- them.
  pub visits-audit_log :
      (store : InMemoryStore)
      → (gained : List AuditEvent) × ((visits in_memory policies trim rt cr config vs
            (started store)).store.audit_log
          ≡ store.audit_log ++ gained)
  visits-audit_log store =
      (visits-Keeps (λ s. Extends store.audit_log s.audit_log) in_memory policies trim rt cr config
        (λ m.
          in_memory-IsKept (at_moment rt m) _ (execute-Extends (at_moment rt m) store.audit_log))
        vs (started store) (([], sym (append-nil _)), tt)).0

-- What a subscriber may receive: published events, and that it has fallen behind.
abbrev pub Received : List ServerEvent → Message → Type 0
Received published none = Unit
Received published (some e) = Memᴰ e published

everything-IsKept : {S : Type 0} (cs : ContextStore S) (rt : Runtime) → IsKept cs rt (λ s. Unit {0})
everything-IsKept cs rt = record {
  create_proposal = λ p s h. tt;
  update_proposal = λ id updates s h. tt;
  submit_review = λ r s h. tt;
  apply_proposal = λ id by s h. tt;
  withdraw_proposal = λ id s h. tt;
  reset = λ s h. tt;
  append_audit = λ e s h. tt;
}

module _ (json_of : ServerEvent → Option String) (workspace : String) (published : List ServerEvent)
    (unscoped : Unscoped published) where
  show_message-none :
      (m : Message) → Received published m → show_message json_of (some workspace) m ≡ none
  show_message-none none received = refl
  show_message-none (some e) received = ground (arith, Mem-All _ received unscoped)

  stream_of-silent :
      (messages : List Message)
      → All (Received published) messages
      → stream_of json_of (some workspace) messages ≡ []
  unfolding stream_of
  stream_of-silent [] received = refl
  stream_of-silent (m ∷ messages) (first, later) =
      ground (arith, show_message-none m first, stream_of-silent messages later)

-- Over any implementation of the store and after any requests to a started server, a subscriber
-- that names a workspace is sent none of the published events, however many of them it receives or
-- misses.
pub visits-silent :
    {S : Type 0} (cs : ContextStore S) (policies : PolicyConfig) (trim : String → String)
    (rt : Runtime) (cr : Crypto) (config : AuthConfig) (json_of : ServerEvent → Option String)
    (workspace : String) (vs : List Visit) (store : S) (messages : List Message)
    → All (Received (visits cs policies trim rt cr config vs (started store)).published) messages
    → stream_of json_of (some workspace) messages ≡ []
visits-silent cs policies trim rt cr config json_of workspace vs store messages received =
    stream_of-silent json_of workspace _
      (visits-Keeps (λ s. Unit {0}) cs policies trim rt cr config
        (λ m. everything-IsKept cs (at_moment rt m)) vs (started store) (tt, tt)).1
      messages received
