-- ===== src/Tests/Server.antt =====
-- Runs of the start-up, of the bridge and of what is recorded.
use context_first_docs.Prelude.{
  false, inr, ℕ, some, none, List, [], ◌∷◌, ◌++◌, ◌≡◌, ◌≤◌, refl, ok, err, if◌then◌else◌, ◌==◌,
  string_eq, length,
}
use context_first_docs.Prelude.Map
use context_first_docs.Disk.{FilePath, Disk, file_exists, read_to_string}
use context_first_docs.Policy.{load_from_file}
use context_first_docs.Policy.Loading.{IsUnruled, load_from_file-open}
use context_first_docs.Auth.{dev_default}
use context_first_docs.Auth.Token.{extract_actor, from_env}
use context_first_docs.Tests.Data.{rt, waiting, review}
use context_first_docs.Tests.Visits.{crypto}
use context_first_docs.Startup.{Parsers, main}
use context_first_docs.Startup.Defaults.{IsOpen, main-IsOpen}
use context_first_docs.Config.{
  Environment, load_config, choose_backend, on_files, root_of, read_file,
}
use context_first_docs.Config.Settings.{Settings, load_config-Settings}
use context_first_docs.Bridge.{
  content, trailers, Response, Sent, response, fin, Stream, handle_request,
}
use context_first_docs.Bridge.Answers.{
  delivered, sent_bytes, handle_request-answers, handle_request-cut,
}
use context_first_docs.Telemetry.{
  pending, ready, RecordServerMetrics, new_future, trace_endpoint, metrics_endpoint,
}
use context_first_docs.Telemetry.Recording.{polls, answered, polls-recorded}

-- The file names a backend, and the environment an address.
abbrev env : Environment
env = record {
  var = λ name. if name == "TRUTHTLAYER_LISTEN" then some "0.0.0.0:443" else none;
  trim = λ s. s;
  parse_file = λ text.
      if text == "on files"
      then some (record {
        storage = some (record { backend = some "file"; file_data_dir = none; mongo_uri = none });
        rbac = none;
        server = some (record { listen_addr = some "127.0.0.1:1" });
        tls = none;
      })
      else none;
}

abbrev disk : Disk
disk = record { dirs = ("srv/config", ("config.json", "on files") ∷ []) ∷ []; faults = [] }

load_config-Settings_example :
    Settings env
      (root_of env (some "srv"))
      (read_file env (root_of env (some "srv")) disk)
      (load_config env (some "srv") disk)
load_config-Settings_example = load_config-Settings env (some "srv") disk

opens_files : choose_backend (load_config env (some "srv") disk) ≡ on_files "srv/data"
unfolding load_config read_file read_to_string choose_backend Map.contains_key Map.get
opens_files = refl

listens : (load_config env (some "srv") disk).listen_addr ≡ "0.0.0.0:443"
unfolding load_config read_file read_to_string
listens = refl

-- The router answers with the request's body, in two frames and trailers.
abbrev echo : List ℕ → Response ℕ
echo body = record {
  head = 200;
  body = ok (content body) ∷ ok trailers ∷ ok (content []) ∷ ok (content (10 ∷ [])) ∷ [];
}

handle_request-answers_example :
    (sent : List (Sent ℕ)) × (handle_request echo
        (record { incoming = delivered ((1 ∷ []) ∷ (2 ∷ 3 ∷ []) ∷ []); sends = [] })
      ≡ (ok tt, response 200 ∷ (sent ++ fin ∷ [])))
    × (sent_bytes sent ≡ 1 ∷ 2 ∷ 3 ∷ 10 ∷ [])
handle_request-answers_example = handle_request-answers echo ((1 ∷ []) ∷ (2 ∷ 3 ∷ []) ∷ [])

abbrev stream : Stream
stream = record { incoming = ok (1 ∷ []) ∷ []; sends = none ∷ none ∷ some "closed" ∷ [] }

handle_request-cut_example :
    handle_request {Head = ℕ}
      (λ body. record {
        head = 200;
        body = ok (content body) ∷ err "lost" ∷ ok (content (9 ∷ [])) ∷ [];
      })
      stream
    ≡ handle_request (λ body. record { head = 200; body = ok (content body) ∷ [] }) stream
handle_request-cut_example =
    handle_request-cut (λ body. 200) (λ body. ok (content body) ∷ [])
      (λ body. ok (content (9 ∷ [])) ∷ []) "lost" stream

-- Two polls before the answer, and one after it.
abbrev future : RecordServerMetrics
future = new_future "GET" 5 (pending ∷ ready (ok 200) ∷ ready (ok 500) ∷ [])

abbrev times : List ℕ
times = 6 ∷ 9 ∷ 12 ∷ []

polls-recorded_example :
    (length (polls times future).2 ≡ answered (polls times future).0)
    × (answered (polls times future).0 ≤ 1)
polls-recorded_example = polls-recorded times future refl

traces : trace_endpoint (λ s. s) "https://host/v1/traces//" ≡ "https://host/v1/traces"
unfolding trace_endpoint
traces = refl

metrics : metrics_endpoint (λ s. s) "https://host/v1/traces" ≡ "https://host/v1/metrics"
unfolding metrics_endpoint
metrics = refl

metrics_of_host : metrics_endpoint (λ s. s) "https://host" ≡ "https://host/v1/metrics"
unfolding metrics_endpoint
metrics_of_host = refl

-- A policies file that does not parse.
abbrev broken : Disk
broken = record { dirs = ("srv", ("policies.json", "{") ∷ []) ∷ []; faults = [] }

abbrev policies_file : FilePath
policies_file = record { dir = "srv"; name = "policies.json" }

broken_text : (read_to_string policies_file broken).0 ≡ ok "{"
unfolding read_to_string Map.get
broken_text = refl

load_from_file-open_example :
    IsUnruled rt waiting (review ∷ []) (load_from_file (λ text. none) policies_file broken)
load_from_file-open_example =
    load_from_file-open (λ text. none) policies_file broken rt waiting (review ∷ [])
      (inr (inr ("{", broken_text, refl)))

-- Without the variable, whoever comes is an administrator.
open_server : extract_actor crypto none (from_env (λ name. none)) ≡ ok dev_default
unfolding extract_actor from_env
open_server = refl

closed_server :
    extract_actor crypto none
      (from_env (λ name. if name == "AUTH_DISABLED" then some "no" else none))
    ≡ err (401, "missing Authorization header")
unfolding extract_actor from_env
closed_server = refl

abbrev bare : Environment
bare = record { var = λ name. none; trim = λ s. s; parse_file = λ text. none }

abbrev no_disk : Disk
no_disk = record { dirs = []; faults = [] }

abbrev parsers : Parsers
parsers = record { policies = λ text. none; retention = λ text. none }

empty : (path : FilePath) → file_exists path no_disk ≡ false
unfolding Map.contains_key Map.get
empty path = refl

main-IsOpen_example : IsOpen (main bare parsers none no_disk)
main-IsOpen_example = main-IsOpen bare parsers none no_disk (λ name. refl) empty
