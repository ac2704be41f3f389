-- ===== src/Config.antt =====
-- server/src/config.rs: the configuration, from a file and the environment, and the choice of the
-- store in server/src/main.rs. `serde_json` reads the file.
pub mod Settings
use Prim.Native.String.{◌++◌}
use context_first_docs.Prelude.{
  String, Option, none, some, Result, ok, err, Bool, true, false, ◌==◌, string_eq, ◌||◌, unwrap_or,
  if◌then◌else◌,
}
use context_first_docs.Disk.{FilePath, Disk, is_absolute, file_exists, read_to_string}

pub record ServerConfig : Type 0 where
  pub config_root : String
  pub storage_backend : String
  pub file_data_dir : Option String
  pub mongo_uri : Option String
  pub rbac_provider : Option String
  pub listen_addr : String
  pub otel_exporter_otlp_endpoint : Option String
  pub tls_cert_path : Option String
  pub tls_key_path : Option String

-- `ServerConfig::default()`
abbrev pub default_config : ServerConfig
default_config = record {
  config_root = ".";
  storage_backend = "memory";
  file_data_dir = some "data";
  mongo_uri = none;
  rbac_provider = none;
  listen_addr = "127.0.0.1:3080";
  otel_exporter_otlp_endpoint = none;
  tls_cert_path = none;
  tls_key_path = none;
}

pub record StorageConfig : Type 0 where
  pub backend : Option String
  pub file_data_dir : Option String
  pub mongo_uri : Option String

pub record RbacConfig : Type 0 where
  pub provider : Option String

pub record ServerConfigFile : Type 0 where
  pub listen_addr : Option String

pub record TlsConfig : Type 0 where
  pub cert_path : Option String
  pub key_path : Option String

pub record ConfigFile : Type 0 where
  pub storage : Option StorageConfig
  pub rbac : Option RbacConfig
  pub server : Option ServerConfigFile
  pub tls : Option TlsConfig

-- What the process has around it: `std::env::var`, without its error, `str::trim`, whose white space
-- is Unicode's, and `serde_json::from_str` of the file.
pub record Environment : Type 0 where
  pub var : String → Option String
  pub trim : String → String
  pub parse_file : String → Option ConfigFile

-- `Option::or`
abbrev pub or : {A : Type 0} → Option A → Option A → Option A
or none b = b
or (some a) b = some a

abbrev pub when_given :
    {A : Type 0} → Option A → (A → ServerConfig → ServerConfig) → ServerConfig → ServerConfig
when_given none f c = c
when_given (some a) f c = f a c

abbrev set_backend : String → ServerConfig → ServerConfig
set_backend v c = record c { storage_backend = v }

abbrev set_listen : String → ServerConfig → ServerConfig
set_listen v c = record c { listen_addr = v }

abbrev set_storage : StorageConfig → ServerConfig → ServerConfig
set_storage s c =
    let c' = when_given s.backend set_backend c in
    record c' {
      file_data_dir = or s.file_data_dir c'.file_data_dir;
      mongo_uri = or s.mongo_uri c'.mongo_uri;
    }

abbrev set_tls : TlsConfig → ServerConfig → ServerConfig
set_tls t c = record c { tls_cert_path = t.cert_path; tls_key_path = t.key_path }

-- The body of `if let Ok(file) = …`
abbrev pub set_file : ConfigFile → ServerConfig → ServerConfig
set_file file c = when_given file.tls set_tls (
    when_given file.server (λ s. when_given s.listen_addr set_listen)
      (when_given file.rbac (λ r c'. record c' { rbac_provider = r.provider })
        (when_given file.storage set_storage c)))

module _ (env : Environment) where
  abbrev pub root_of : Option String → String
  root_of given = unwrap_or (or given (env.var "TRUTHTLAYER_CONFIG_ROOT")) "."

  abbrev parsed : Result String String → Option ConfigFile
  parsed (err e) = none
  parsed (ok text) = env.parse_file text

  -- The first of the two files that is there is read, and no other.
  unfoldable pub read_file : String → Disk → Option ConfigFile
  read_file root d =
      let first : FilePath = record { dir = root ++ "/config"; name = "config.json" } in
      let second : FilePath = record { dir = root; name = "config.json" } in
      if file_exists first d
      then parsed (read_to_string first d).0
      else if file_exists second d
      then parsed (read_to_string second d).0
      else none

  abbrev set_endpoint : String → ServerConfig → ServerConfig
  set_endpoint v c =
      if env.trim v == "" then c else record c { otel_exporter_otlp_endpoint = some (env.trim v) }

  -- The variables of the environment.
  abbrev pub set_env : ServerConfig → ServerConfig
  set_env c =
      when_given (env.var "TRUTHTLAYER_TLS_KEY") (λ v c'. record c' { tls_key_path = some v })
        (when_given (env.var "TRUTHTLAYER_TLS_CERT") (λ v c'. record c' { tls_cert_path = some v })
          (when_given (env.var "OTEL_EXPORTER_OTLP_ENDPOINT") set_endpoint (
            when_given (env.var "TRUTHTLAYER_MONGO_URI") (λ v c'. record c' { mongo_uri = some v })
              (when_given (env.var "TRUTHTLAYER_LISTEN") set_listen
                (when_given (env.var "TRUTHTLAYER_STORAGE") set_backend c)))))

  unfoldable pub load_config : Option String → Disk → ServerConfig
  load_config given d =
      let root = root_of given in
      set_env
        (when_given (read_file root d) set_file (record default_config { config_root = root }))

-- The store that `main` opens: in memory, or on files in a directory.
pub data Backend : Type 0 where
  in_memory : Backend
  on_files : (root : String) → Backend

-- `Path::join` with a directory
abbrev join_dir : String → String → String
join_dir root dir = if is_absolute dir then dir else root ++ ("/" ++ dir)

unfoldable pub choose_backend : ServerConfig → Backend
choose_backend c =
    if c.storage_backend == "memory" || c.storage_backend == "mem"
    then in_memory
    else if c.storage_backend == "file"
    then on_files (join_dir c.config_root (unwrap_or c.file_data_dir "data"))
    else in_memory
