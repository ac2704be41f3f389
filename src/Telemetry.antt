-- ===== src/Telemetry.antt =====
-- server/src/telemetry.rs: the trace headers, the endpoints of the exporters, and the future that
-- records one metric for a request. Building the exporters is OpenTelemetry's.
pub mod Recording
use Prim.Native.Char.{code}
use Prim.Native.String.{◌++◌, count}
use context_first_docs.Prelude.{
  ℕ, String, Option, none, some, List, [], ◌∷◌, Bool, true, false, ◌==◌, nat_eq, string_eq, ◌&&◌,
  Result, ok, err, ◌||◌, zero, suc, if◌then◌else◌, ◌-◌,
}
use mathlib.Core.List
use text.Mathlib.Text.{starts_with}

-- The headers that a request has: those whose value is text.
abbrev pub HeaderMap : Type 0
HeaderMap = String → Option String

pub record HeaderExtractor : Type 0 where
  pub traceparent : Option String
  pub tracestate : Option String

unfoldable pub from_headers : HeaderMap → HeaderExtractor
from_headers headers = record {
  traceparent = headers "traceparent";
  tracestate = headers "tracestate";
}

unfoldable pub get : HeaderExtractor → String → Option String
get e key =
    if key == "traceparent"
    then e.traceparent
    else if key == "tracestate"
    then e.tracestate
    else none

abbrev push_if : Option String → String → List String
push_if none key = []
push_if (some v) key = key ∷ []

unfoldable pub keys : HeaderExtractor → List String
keys e = List.◌++◌ (push_if e.traceparent "traceparent") (push_if e.tracestate "tracestate")

-- `RecordServerMetrics`: the inner future is what its polls give, pending when none is listed.
pub data Poll (A : Type 0) : Type 0 where
  pending : Poll A
  ready : A → Poll A

pub record Metric : Type 0 where
  pub method : String
  pub status_code : ℕ
  pub duration : ℕ

-- The result of the inner service: a response with its status, or an error.
abbrev pub Outcome : Type 0
Outcome = Result String ℕ

pub record RecordServerMetrics : Type 0 where
  pub inner : List (Poll Outcome)
  pub method : String
  pub start : ℕ
  pub done : Bool

abbrev pub new_future : String → ℕ → List (Poll Outcome) → RecordServerMetrics
new_future method start inner = record {
  inner = inner;
  method = method;
  start = start;
  done = false;
}

abbrev pub status_of : Outcome → ℕ
status_of (ok status) = status
status_of (err e) = 0

abbrev pub next_poll : List (Poll Outcome) → Poll Outcome × List (Poll Outcome)
next_poll [] = (pending, [])
next_poll (p ∷ later) = (p, later)

abbrev pub settle :
    ℕ
    → RecordServerMetrics
    → Poll Outcome × List (Poll Outcome)
    → Poll Outcome × RecordServerMetrics × List Metric
settle now f (pending, inner) = (pending, record f { inner = inner }, [])
settle now f (ready r, inner) = (
  ready r,
  record f { inner = inner; done = true },
  record { method = f.method; status_code = status_of r; duration = now - f.start } ∷ [],
)

-- One poll at a time of the clock, with what it records.
unfoldable pub poll : ℕ → RecordServerMetrics → Poll Outcome × RecordServerMetrics × List Metric
poll now f = if f.done then (pending, f, []) else settle now f (next_poll f.inner)

-- `trim_end_matches`
unfoldable pub trim_end_matches : ℕ → String → String
trim_end_matches c String.[] = ""
trim_end_matches c (String.◌∷◌ x s) =
    let rest = trim_end_matches c s in if rest == "" && code x == c then "" else String.◌∷◌ x rest

-- `ends_with`
unfoldable pub ends_with : String → String → Bool
ends_with String.[] t = "" == t
ends_with (String.◌∷◌ x s) t = String.◌∷◌ x s == t || ends_with s t

-- `replace`, from left to right; `skip` counts the characters of a match that are still to pass.
unfoldable pub replace_from : ℕ → String → String → String → String
replace_from skip String.[] from to = ""
replace_from (suc skip) (String.◌∷◌ x s) from to = replace_from skip s from to
replace_from zero (String.◌∷◌ x s) from to =
    let replaced = to ++ replace_from (count from - 1) s from to in
    let kept = String.◌∷◌ x (replace_from zero s from to) in
    if starts_with (String.◌∷◌ x s) from then replaced else kept

module _ (trim : String → String) where
  abbrev trimmed : String → String
  trimmed endpoint = trim_end_matches b'/' (trim endpoint)

  -- The endpoint of `init_tracer`
  unfoldable pub trace_endpoint : String → String
  unfolding trim_end_matches ends_with
  trace_endpoint endpoint =
      if ends_with (trimmed endpoint) "/v1/traces"
      then trimmed endpoint
      else trimmed endpoint ++ "/v1/traces"

  -- The endpoint of `init_meter_provider`
  unfoldable pub metrics_endpoint : String → String
  unfolding trim_end_matches ends_with replace_from
  metrics_endpoint endpoint =
      if ends_with (trimmed endpoint) "/v1/metrics"
      then trimmed endpoint
      else if ends_with (trimmed endpoint) "/v1/traces"
      then replace_from 0 (trimmed endpoint) "/v1/traces" "/v1/metrics"
      else trimmed endpoint ++ "/v1/metrics"
