-- ===== src/Api/Events.antt =====
-- `events_stream` of server/src/api/routes.rs. What the broadcast channel delivers to a subscriber is
-- a list of messages; the JSON of an event is `serde_json`'s.
use context_first_docs.Prelude.{
  String, Option, none, some, List, Bool, true, false, ◌==◌, string_eq, if◌then◌else◌, filter_map,
  Result, ok, err,
}
use context_first_docs.Auth.{ActorContext, Forbidden, reader, require_role}
use context_first_docs.Api.{ServerEvent}

-- A message of the channel: an event, or that the subscriber has fallen behind and lost some.
abbrev pub Message : Type 0
Message = Option ServerEvent

-- An event of the stream: `Event::default().event(..).json_data(..)`
pub record Sse : Type 0 where
  pub event : String
  pub body : String

abbrev is_of : Option String → String → Bool
is_of none ws = false
is_of (some id) ws = id == ws

-- The filter on the workspace.
abbrev pub passes : Option String → ServerEvent → Bool
passes none e = true
passes (some ws) e = is_of e.workspace_id ws

module _ (json_of : ServerEvent → Option String) where
  abbrev sse_of : ServerEvent → Option String → Option Sse
  sse_of e none = none
  sse_of e (some text) = some (record { event = e.event_type; body = text })

  abbrev pub show_message : Option String → Message → Option Sse
  show_message workspace none = none
  show_message workspace (some e) = if passes workspace e then sse_of e (json_of e) else none

  -- What the stream sends of the messages.
  unfoldable pub stream_of : Option String → List Message → List Sse
  stream_of workspace messages = filter_map (show_message workspace) messages

  unfoldable pub events_stream :
      ActorContext → Option String → Result Forbidden (List Message → List Sse)
  unfolding require_role stream_of
  events_stream actor workspace = elim (require_role actor reader) [
    | err f ↦ err f
    | ok passed ↦ ok (stream_of workspace)
  ]
