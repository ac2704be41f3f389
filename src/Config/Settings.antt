-- ===== src/Config/Settings.antt =====
-- Where each setting of server/src/config.rs comes from.
use context_first_docs.Prelude.{
  String, Option, none, some, ◌≡◌, refl, ◌∙◌, arith, ◌==◌, string_eq, if◌then◌else◌, unwrap_or,
}
use context_first_docs.Disk.{Disk}
use context_first_docs.Config.{
  ServerConfig, ConfigFile, Environment, or, root_of, read_file, load_config, set_env, set_file,
  when_given, default_config,
}

-- A setting of the file, if there is a file with that part.
abbrev pub of_part : {A B : Type 0} → Option A → (A → Option B) → Option B
of_part none f = none
of_part (some a) f = f a

-- The trimmed text, unless it is empty.
abbrev pub not_empty : String → Option String
not_empty s = if s == "" then none else some s

-- Each setting by itself: the environment, then the file, then the default.
pub record Settings (env : Environment) (root : String) (file : Option ConfigFile)
    (c : ServerConfig) : Type 0 where
  pub config_root : c.config_root ≡ root
  pub storage_backend :
      c.storage_backend
      ≡ unwrap_or
          (or
            (env.var "TRUTHTLAYER_STORAGE")
            (of_part file (λ f. of_part f.storage (λ s. s.backend))))
          "memory"
  pub file_data_dir :
      c.file_data_dir
      ≡ or (of_part file (λ f. of_part f.storage (λ s. s.file_data_dir))) (some "data")
  pub mongo_uri :
      c.mongo_uri
      ≡ or
          (env.var "TRUTHTLAYER_MONGO_URI")
          (of_part file (λ f. of_part f.storage (λ s. s.mongo_uri)))
  pub rbac_provider : c.rbac_provider ≡ of_part file (λ f. of_part f.rbac (λ r. r.provider))
  pub listen_addr :
      c.listen_addr
      ≡ unwrap_or
          (or
            (env.var "TRUTHTLAYER_LISTEN")
            (of_part file (λ f. of_part f.server (λ s. s.listen_addr))))
          "127.0.0.1:3080"
  pub otel_exporter_otlp_endpoint :
      c.otel_exporter_otlp_endpoint
      ≡ of_part (env.var "OTEL_EXPORTER_OTLP_ENDPOINT") (λ v. not_empty (env.trim v))
  pub tls_cert_path :
      c.tls_cert_path
      ≡ or (env.var "TRUTHTLAYER_TLS_CERT") (of_part file (λ f. of_part f.tls (λ t. t.cert_path)))
  pub tls_key_path :
      c.tls_key_path
      ≡ or (env.var "TRUTHTLAYER_TLS_KEY") (of_part file (λ f. of_part f.tls (λ t. t.key_path)))

-- What the environment makes of each setting.
module _ (env : Environment) (c : ServerConfig) where
  set_env-config_root : (set_env env c).config_root ≡ c.config_root
  set_env-config_root = ground arith

  set_env-storage_backend :
      (set_env env c).storage_backend ≡ unwrap_or (env.var "TRUTHTLAYER_STORAGE") c.storage_backend
  set_env-storage_backend = ground arith

  set_env-file_data_dir : (set_env env c).file_data_dir ≡ c.file_data_dir
  set_env-file_data_dir = ground arith

  set_env-mongo_uri : (set_env env c).mongo_uri ≡ or (env.var "TRUTHTLAYER_MONGO_URI") c.mongo_uri
  set_env-mongo_uri = ground arith

  set_env-rbac_provider : (set_env env c).rbac_provider ≡ c.rbac_provider
  set_env-rbac_provider = ground arith

  set_env-listen_addr :
      (set_env env c).listen_addr ≡ unwrap_or (env.var "TRUTHTLAYER_LISTEN") c.listen_addr
  set_env-listen_addr = ground arith

  set_env-otel_exporter_otlp_endpoint :
      (set_env env c).otel_exporter_otlp_endpoint
      ≡ or
          (of_part (env.var "OTEL_EXPORTER_OTLP_ENDPOINT") (λ v. not_empty (env.trim v)))
          c.otel_exporter_otlp_endpoint
  set_env-otel_exporter_otlp_endpoint = ground arith

  set_env-tls_cert_path :
      (set_env env c).tls_cert_path ≡ or (env.var "TRUTHTLAYER_TLS_CERT") c.tls_cert_path
  set_env-tls_cert_path = ground arith

  set_env-tls_key_path :
      (set_env env c).tls_key_path ≡ or (env.var "TRUTHTLAYER_TLS_KEY") c.tls_key_path
  set_env-tls_key_path = ground arith

-- What a file makes of each setting of the default.
abbrev from_file : Option ConfigFile → String → ServerConfig
from_file file root = when_given file set_file (record default_config { config_root = root })

module _ (file : Option ConfigFile) (root : String) where
  from_file-config_root : (from_file file root).config_root ≡ root
  from_file-config_root = ground arith

  from_file-storage_backend :
      (from_file file root).storage_backend
      ≡ unwrap_or (of_part file (λ f. of_part f.storage (λ s. s.backend))) "memory"
  from_file-storage_backend = ground arith

  from_file-file_data_dir :
      (from_file file root).file_data_dir
      ≡ or (of_part file (λ f. of_part f.storage (λ s. s.file_data_dir))) (some "data")
  from_file-file_data_dir = ground arith

  from_file-mongo_uri :
      (from_file file root).mongo_uri ≡ of_part file (λ f. of_part f.storage (λ s. s.mongo_uri))
  from_file-mongo_uri = ground arith

  from_file-rbac_provider :
      (from_file file root).rbac_provider ≡ of_part file (λ f. of_part f.rbac (λ r. r.provider))
  from_file-rbac_provider = ground arith

  from_file-listen_addr :
      (from_file file root).listen_addr
      ≡ unwrap_or (of_part file (λ f. of_part f.server (λ s. s.listen_addr))) "127.0.0.1:3080"
  from_file-listen_addr = ground arith

  from_file-otel_exporter_otlp_endpoint : (from_file file root).otel_exporter_otlp_endpoint ≡ none
  from_file-otel_exporter_otlp_endpoint = ground arith

  from_file-tls_cert_path :
      (from_file file root).tls_cert_path ≡ of_part file (λ f. of_part f.tls (λ t. t.cert_path))
  from_file-tls_cert_path = ground arith

  from_file-tls_key_path :
      (from_file file root).tls_key_path ≡ of_part file (λ f. of_part f.tls (λ t. t.key_path))
  from_file-tls_key_path = ground arith

unwrap_or-or :
    {A : Type 0} (a b : Option A) (c : A) → unwrap_or a (unwrap_or b c) ≡ unwrap_or (or a b) c
unwrap_or-or none b c = refl
unwrap_or-or (some a) b c = refl

or-none : {A : Type 0} (a : Option A) → or a none ≡ a
or-none none = refl
or-none (some a) = refl

-- Each setting, independently of the others, is what its variable of the environment says, or else
-- what the file says that was read, or else the default: the listening address, the backend, the
-- MongoDB address and the TLS paths have a variable and a place in the file, the data directory
-- and the RBAC provider only the place, the telemetry endpoint only the variable, which counts
-- trimmed and unless it is empty.
pub load_config-Settings :
    (env : Environment) (given : Option String) (d : Disk)
    → Settings env
        (root_of env given)
        (read_file env (root_of env given) d)
        (load_config env given d)
unfolding load_config
load_config-Settings env given d =
    let root = root_of env given in
    let file = read_file env root d in
    let c = from_file file root in
    record {
      config_root = set_env-config_root env c ∙ rw (from_file-config_root file root) refl;
      storage_backend =
          set_env-storage_backend env c
          ∙ rw (from_file-storage_backend file root, unwrap_or-or) refl;
      file_data_dir = set_env-file_data_dir env c ∙ rw (from_file-file_data_dir file root) refl;
      mongo_uri = set_env-mongo_uri env c ∙ rw (from_file-mongo_uri file root) refl;
      rbac_provider = set_env-rbac_provider env c ∙ rw (from_file-rbac_provider file root) refl;
      listen_addr =
          set_env-listen_addr env c ∙ rw (from_file-listen_addr file root, unwrap_or-or) refl;
      otel_exporter_otlp_endpoint =
          set_env-otel_exporter_otlp_endpoint env c
          ∙ rw (from_file-otel_exporter_otlp_endpoint file root, or-none) refl;
      tls_cert_path = set_env-tls_cert_path env c ∙ rw (from_file-tls_cert_path file root) refl;
      tls_key_path = set_env-tls_key_path env c ∙ rw (from_file-tls_key_path file root) refl;
    }
