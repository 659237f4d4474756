-- ===== src/Config.antt =====
-- internal/ConfigReader: the configuration file, which is read once, and the environment.
use dsc_zookeeper.Prelude.{
  Str, str_eq, Bytes, List, Bool, true, false, ◌==◌, if◌then◌else◌, Option, none, some, ◌>>=◌,
  Codec, codes,
}

pub record Config : Type 0 where
  pub servers : List Str
  pub clients : List Str
  pub test_mode : Str

pub data Mode : Type 0 where
  server client : Mode

-- JSON, the files by their names (`none` cannot be opened or read), and the variables of the
-- process, which are empty when they are not set.
pub record System : Type 0 where
  pub codec : Codec Config
  pub files : Str → Option Bytes
  pub getenv : Str → Str

module _ (sys : System) where
  abbrev decoded : Config × Bool → Option Config
  decoded (config, true) = some config
  decoded (config, false) = none

  -- An error ends the process.
  unfoldable pub load_config : Str → Option Config
  load_config filename = do bytes ← sys.files filename; decoded (sys.codec.unmarshal bytes)

  -- The state is the configuration, once it has been loaded.
  unfoldable pub get_config : Option Config → Option (Config × Option Config)
  get_config (some config) = some (config, some config)
  get_config none = do config ← load_config (codes "config.json"); some (config, some config)

  -- Any other mode is a panic.
  unfoldable pub get_mode : Option Mode
  get_mode =
      let mode = sys.getenv (codes "MODE") in
      if mode == codes "Server"
      then some Mode.server
      else if mode == codes "Client"
      then some Mode.client
      else none

  unfoldable pub get_name : Str
  get_name = sys.getenv (codes "NAME")

  -- `main`: the program that it starts, after the configuration is loaded. Any mode but the
  -- server's starts the client.
  unfoldable pub main : Option Config → Option (Mode × Option Config)
  main loaded = do
    (config, loaded') ← get_config loaded
    some (if sys.getenv (codes "MODE") == codes "Server" then Mode.server else Mode.client, loaded')
