-- ===== src/Tests/Visits.antt =====
-- Requests to a server, with and without a token.
use context_first_docs.Prelude.{
  String, Option, some, none, List, [], ◌∷◌, ◌++◌, ◌≡◌, refl, ok, ◌==◌, string_eq, All, false,
}
use mathlib.Core.List.Memᴰ
use context_first_docs.Types.Audit.{AuditEvent}
use context_first_docs.Auth.{human, admin}
use context_first_docs.Auth.Token.{Crypto, AuthConfig}
use context_first_docs.Auth.Token
use context_first_docs.Api.Proposals
use context_first_docs.Store.Proposals as Stored
use context_first_docs.Prelude.Map
use context_first_docs.Store.{new}
use context_first_docs.Store.Interface.{in_memory}
use context_first_docs.Store.Commands.Safety.{AllGenuine}
use context_first_docs.Api.{ServerEvent}
use context_first_docs.Api.Events.{stream_of}
use context_first_docs.Api.Requests.{
  Moment, Visit, visit, visits, create_proposal, submit_review, apply_proposal, reset_store,
}
use context_first_docs.Api.Requests.Safety.{
  started, Received, visits-AllGenuine, visits-audit_log, visits-silent,
}
use context_first_docs.Tests.Data.{rt, waiting, review, store}
use context_first_docs.Tests.Decisions.{policies}

abbrev pub crypto : Crypto
crypto = record {
  base64_decode = λ s. ok (1 ∷ []);
  new_mac = λ s. ok tt;
  verify = λ secret message signature. secret == "secret";
  parse_claims =
      λ bytes. ok (record { sub = "ann"; actor_type = human; roles = admin ∷ []; exp = 0 });
  now_secs = 100;
}

abbrev config : AuthConfig
config = record { disabled = false; secret = some "secret" }

abbrev moment : Moment
moment = record {
  now = "2026-01-05T11:00:00Z";
  weekday = 1;
  hour = 11;
  fresh_id = λ n. "event";
  now_secs = 50;
}

abbrev token : Option String
token = some "Bearer a.b.c"

-- The reset comes without a token.
abbrev asked : List Visit
asked =
    record { moment = moment; authorization = token; request = create_proposal waiting }
    ∷ record { moment = moment; authorization = token; request = submit_review "waiting" review }
    ∷ record { moment = moment; authorization = none; request = reset_store }
    ∷ record { moment = moment; authorization = token; request = apply_proposal "waiting" none }
    ∷ []

visits-AllGenuine_example :
    AllGenuine rt
      (visits in_memory policies (λ s. s) rt crypto config asked (started new)).store.nodes
visits-AllGenuine_example = visits-AllGenuine policies (λ s. s) rt crypto config asked

visits-audit_log_example :
    (gained : List AuditEvent) × ((visits in_memory policies
        (λ s. s)
        rt
        crypto
        config
        asked
        (started store)).store.audit_log
      ≡ store.audit_log ++ gained)
visits-audit_log_example = visits-audit_log policies (λ s. s) rt crypto config asked store

visiting : Unit {0}
unfolding visits visit Token.call Token.extract_actor
visiting = tt

refused :
    (visit in_memory policies
      (λ s. s)
      rt
      crypto
      config
      (record { moment = moment; authorization = none; request = reset_store })
      (started store))
    ≡ (some 401, started store)
unfolding visiting
refused = refl

abbrev created : ServerEvent
created = record {
  event_type = "proposal_updated";
  workspace_id = none;
  resource_id = "waiting";
  actor_id = "ann";
  timestamp = "2026-01-05T11:00:00Z";
  body = none;
}

creates :
    (visits in_memory policies
      (λ s. s)
      rt
      crypto
      config
      (record { moment = moment; authorization = token; request = create_proposal waiting } ∷ [])
      (started new)).published
    ≡ created ∷ []
unfolding visiting Proposals.create_proposal Stored.create_proposal Map.contains_key Map.get
creates = refl

abbrev one : List Visit
one = record { moment = moment; authorization = token; request = create_proposal waiting } ∷ []

received :
    All
      (Received (visits in_memory policies (λ s. s) rt crypto config one (started new)).published)
      (some created ∷ none ∷ [])
received = (rw creates (Memᴰ.head refl), (tt, tt))

visits-silent_example :
    stream_of (λ e. some e.resource_id) (some "team") (some created ∷ none ∷ []) ≡ []
visits-silent_example =
    visits-silent in_memory policies (λ s. s) rt crypto config (λ e. some e.resource_id) "team" one
      new (some created ∷ none ∷ []) received

shown :
    stream_of (λ e. some e.resource_id) none (some created ∷ none ∷ [])
    ≡ record { event = "proposal_updated"; body = "waiting" } ∷ []
unfolding stream_of
shown = refl
