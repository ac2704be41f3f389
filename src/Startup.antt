-- ===== src/Startup.antt =====
-- `main` of server/src/main.rs up to the start of the listeners: what it makes of its environment and
-- of the files. Exporters, certificates and sockets are made by other
-- libraries. The faults of the disk meet each of the files alike.
pub mod Defaults
use Prim.Native.String.{◌++◌}
use context_first_docs.Prelude.{
  ℕ, String, Option, none, some, List, [], ◌∷◌, Bool, true, false, ◌||◌, not, is_empty, is_some_and,
  if◌then◌else◌,
}
use context_first_docs.Disk.{FilePath, Disk}
use context_first_docs.Config.{Environment, ServerConfig, load_config, Backend, choose_backend}
use context_first_docs.Policy.{PolicyConfig}
use context_first_docs.Policy
use context_first_docs.Retention.{RetentionConfig}
use context_first_docs.Retention
use context_first_docs.Auth.Token.{AuthConfig, from_env, is_on}

-- `serde_json::from_str` of the other two files.
pub record Parsers : Type 0 where
  pub policies : String → Option PolicyConfig
  pub retention : String → Option RetentionConfig

-- What runs in the end. `retention` is the task, if it is spawned, and `certificate` the two files of
-- the certificate, none where one is generated.
pub record Running : Type 0 where
  pub config : ServerConfig
  pub tracing : Bool
  pub auth : AuthConfig
  pub policies : PolicyConfig
  pub store : Backend
  pub retention : Option RetentionConfig
  pub certificate : Option (String × String)
  pub dev_tcp : Bool

-- `std::env::var(..).is_ok_and(..)`
abbrev pub switched_on : Environment → String → Bool
switched_on env name = is_some_and (env.var name) is_on

abbrev is_given : Option String → Bool
is_given v = is_some_and v (λ s. true)

abbrev both : Option String → Option String → Option (String × String)
both (some a) (some b) = some (a, b)
both (some a) none = none
both none b = none

abbrev in_root : ServerConfig → String → FilePath
in_root c name = record { dir = c.config_root; name = name }

-- Whether the providers are asked for.
abbrev pub otel_enabled : Environment → ServerConfig → Bool
otel_enabled env c = is_given c.otel_exporter_otlp_endpoint || switched_on env "OTEL_CONSOLE_SPANS"

abbrev spawned : RetentionConfig → Option RetentionConfig
spawned c = if is_empty c.rules then none else some c

-- `argument` is the first argument of the program.
unfoldable pub main : Environment → Parsers → Option String → Disk → Running
unfolding load_config from_env Policy.load_from_file Retention.load_from_file choose_backend
main env parsers argument d =
    let config = load_config env argument d in
    record {
      config = config;
      tracing = otel_enabled env config;
      auth = from_env env.var;
      policies = Policy.load_from_file parsers.policies (in_root config "policies.json") d;
      store = choose_backend config;
      retention =
          spawned (Retention.load_from_file parsers.retention (in_root config "retention.json") d);
      certificate = both config.tls_cert_path config.tls_key_path;
      dev_tcp = switched_on env "TRUTHTLAYER_DEV_TCP";
    }
