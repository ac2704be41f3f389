-- ===== src/Startup/Defaults.antt =====
-- What server/src/main.rs starts where nothing is configured.
use context_first_docs.Prelude.{String, Option, none, ◌≡◌, refl, arith, false, ok, ◌∙◌}
use context_first_docs.Disk.{FilePath, Disk, file_exists}
use Prim.Native.String.{◌++◌}
use context_first_docs.Config.Settings.{Settings, load_config-Settings}
use context_first_docs.Config.{
  ServerConfig, root_of, Environment, in_memory, read_file, load_config, choose_backend,
}
use context_first_docs.Policy.{no_rules, load_from_file}
use context_first_docs.Retention
use context_first_docs.Auth.{dev_default}
use context_first_docs.Auth.Token.{Crypto, extract_actor}
use context_first_docs.Startup.{Parsers, Running, main}

-- Nothing is kept, nobody is asked who they are, and no rule applies.
pub record IsOpen (r : Running) : Type 0 where
  pub lets_in :
      (cr : Crypto) (header : Option String) → extract_actor cr header r.auth ≡ ok dev_default
  pub policies : r.policies ≡ no_rules
  pub store : r.store ≡ in_memory
  pub retention : r.retention ≡ none
  pub certificate : r.certificate ≡ none
  pub listen_addr : r.config.listen_addr ≡ "127.0.0.1:3080"

choose_backend-memory :
    (c : ServerConfig) → c.storage_backend ≡ "memory" → choose_backend c ≡ in_memory
unfolding choose_backend
choose_backend-memory c memory = rw memory refl

module _ (env : Environment) (parsers : Parsers) (argument : Option String) (d : Disk)
    (nothing_set : (name : String) → env.var name ≡ none)
    (no_file : (path : FilePath) → file_exists path d ≡ false) where
  no_config_file : read_file env (root_of env argument) d ≡ none
  unfolding read_file
  no_config_file = ground (
    arith,
    no_file (record { dir = root_of env argument ++ "/config"; name = "config.json" }),
    no_file (record { dir = root_of env argument; name = "config.json" }),
  )

  settings : Settings env (root_of env argument) none (load_config env argument d)
  settings = rw no_config_file at (load_config-Settings env argument d)

  -- Where no variable of the environment is set and no file exists, the server lets everybody in
  -- as the administrator of development, has no policy and no retention task, keeps its data in
  -- memory, listens on 127.0.0.1:3080 and generates its certificate.
  pub main-IsOpen : IsOpen (main env parsers argument d)
  unfolding main extract_actor load_from_file Retention.load_from_file choose_backend
  main-IsOpen = record {
    lets_in = λ cr header. ground (arith, nothing_set "AUTH_DISABLED");
    policies = ground (
      arith,
      no_file (record { dir = (load_config env argument d).config_root; name = "policies.json" }),
    );
    store =
        choose_backend-memory (load_config env argument d)
          (settings.storage_backend ∙ rw (nothing_set "TRUTHTLAYER_STORAGE") refl);
    retention = ground (
      arith,
      no_file (record { dir = (load_config env argument d).config_root; name = "retention.json" }),
    );
    certificate = ground (
      arith,
      settings.tls_cert_path,
      settings.tls_key_path,
      nothing_set "TRUTHTLAYER_TLS_CERT",
      nothing_set "TRUTHTLAYER_TLS_KEY",
    );
    listen_addr = ground (arith, settings.listen_addr, nothing_set "TRUTHTLAYER_LISTEN");
  }
