-- ===== src/Config.antt =====
-- src/common/configuration/wdbConfiguration.cpp and .h: the options of a program, from its command
-- line, from configuration files and from defaults. Boost.Program_options and the operating system
-- are parameters; logging is left out.

pub mod Precedence
pub mod File
use wdb.Base.{
  ℕ, Bool, true, false, List, [], ◌∷◌, ◌++◌, Bytes, codes, is_nil, Option, none, some, Outcome, ok,
  fail, Failure, invalid_query, logic_error, runtime_error, out_of_range, ereport, null_dereference,
  undefined, ◌>>=◌, if◌then◌else◌, ℤ, pos, show_ℤ,
}

-- `getenv`, `wordexp` (`none` is an error), and the text of a file that can be opened.
pub record Host : Type 0 where
  pub getenv : Bytes → Option Bytes
  pub wordexp : Bytes → Option (List Bytes)
  pub read_file : Bytes → Option Bytes
  -- `boost::lexical_cast<int>`
  pub lexical_cast : Bytes → Option ℤ
  -- `SYSCONFDIR` of the build
  pub sysconfdir : Bytes

-- Boost.Program_options: `Variables` is `variables_map`, and `Parsed` is `parsed_options`.
pub record ProgramOptions : Type 1 where
  pub Variables : Type 0
  pub Parsed : Type 0
  pub empty : Variables
  pub parse_command_line : List Bytes → Outcome Parsed
  pub parse_config_file : Bytes → Outcome Parsed
  pub store : Parsed → Variables → Outcome Variables
  -- The value of an option that is not a default.
  pub given : Variables → Bytes → Option Bytes
  -- A `bool_switch`, and an `int` whose text `store` has checked.
  pub switched : Variables → Bytes → Bool
  pub int_of : Bytes → ℤ

-- `WdbConfiguration::GeneralOptions`
pub record GeneralOptions : Type 0 where
  pub config_file : Bytes
  pub help : Bool
  pub version : Bool

-- `WdbConfiguration::DatabaseOptions`
pub record DatabaseOptions : Type 0 where
  pub database : Bytes
  pub host : Bytes
  pub port : ℤ
  pub user : Bytes

-- `WdbConfiguration::LoggingOptions`
pub record LoggingOptions : Type 0 where
  pub loglevel : ℤ
  pub logfile : Bytes

pub record Configuration : Type 0 where
  pub general : GeneralOptions
  pub database_options : DatabaseOptions
  pub logging : LoggingOptions

-- `DatabaseOptions::pqDatabaseConnection`
unfoldable pub pq_database_connection : DatabaseOptions → Bytes
pq_database_connection o =
    codes "dbname="
    ++ (o.database
        ++ (codes " "
            ++ ((if is_nil o.host then [] else codes "host=" ++ (o.host ++ codes " "))
                ++ (codes "port="
                    ++ (show_ℤ o.port
                        ++ (codes " "
                            ++ (if is_nil o.user
                                then []
                                else codes "user=" ++ (o.user ++ codes " "))))))))

-- `DatabaseOptions::psqlDatabaseConnection`
unfoldable pub psql_database_connection : DatabaseOptions → Bytes
psql_database_connection o =
    codes "-d"
    ++ (o.database
        ++ ((if is_nil o.host then [] else codes " -h" ++ o.host)
            ++ (codes " -p" ++ (show_ℤ o.port ++ (codes " -U" ++ o.user)))))

abbrev pub default_config_file : Bytes
default_config_file = codes "$HOME/.wdb/wdb.conf"

-- A value, or the default.
abbrev pub or_else : Option Bytes → Bytes → Bytes
or_else none other = other
or_else (some text) other = text

module _ (host : Host) where
  -- `getDefaultConfigFile`
  unfoldable pub get_default_config_file : Outcome Bytes
  get_default_config_file = elim (host.wordexp default_config_file) [
    | none ↦
        fail
          (logic_error (codes "Unable to parse file name: <" ++ (default_config_file ++ codes ">")))
    | some words ↦ elim words [
      | [] ↦ fail (
          logic_error
            (codes "Error when parsing file name <" ++ (default_config_file ++ codes ">")))
      | word ∷ more ↦ ok word
    ]
  ]

  abbrev pub variable_or : Bytes → Bytes → Bytes
  variable_or name other = or_else (host.getenv name) other

  -- `getDefaultTarget`
  unfoldable pub get_default_target : Bytes
  get_default_target = variable_or (codes "PGDATABASE") (codes "wdb")

  -- `getDefaultHost`
  unfoldable pub get_default_host : Bytes
  get_default_host = []

  -- `getDefaultUser`
  unfoldable pub get_default_user : Bytes
  get_default_user = variable_or (codes "PGUSER") (variable_or (codes "USER") [])

  -- `getDefaultPort`
  unfoldable pub get_default_port : Outcome ℤ
  get_default_port = elim (host.getenv (codes "PGPORT")) [
    | none ↦ ok (pos 5432)
    | some port ↦ elim (host.lexical_cast port) [
      | none ↦ fail (runtime_error (port ++ codes " is not a valid port number"))
      | some number ↦ ok number
    ]
  ]

-- `catch (std::runtime_error &)` with an empty handler.
abbrev pub ignoring_runtime_error {ℓ} : {A : Type ℓ} → A → Outcome A → Outcome A
ignoring_runtime_error a (ok b) = ok b
ignoring_runtime_error a (fail (runtime_error what)) = ok a
ignoring_runtime_error a (fail e) = fail e

module _ (B : ProgramOptions) (host : Host) where
  -- `parse_(argc, argv)`
  unfoldable pub parse_arguments : List Bytes → B.Variables → Outcome B.Variables
  parse_arguments arguments v = do parsed ← B.parse_command_line arguments; B.store parsed v

  -- `parse_(istream)`
  unfoldable pub parse_stream : Bytes → B.Variables → Outcome B.Variables
  parse_stream text v = do parsed ← B.parse_config_file text; B.store parsed v

  abbrev pub parse_opened : Bytes → Option Bytes → B.Variables → Outcome B.Variables
  parse_opened path none v =
      fail (runtime_error (codes "Unable to open configuration file " ++ path))
  parse_opened path (some text) v = parse_stream text v

  -- `parse_(path)`
  unfoldable pub parse_path : Bytes → B.Variables → Outcome B.Variables
  parse_path path v = parse_opened path (host.read_file path) v

  abbrev pub global_config_file : Bytes
  global_config_file = host.sysconfdir ++ codes "/wdb.conf"

  -- The first guarded block of `parseAllConfigFiles_`.
  unfoldable pub parse_default_file : B.Variables → Outcome B.Variables
  parse_default_file v = do path ← get_default_config_file host; parse_path path v

  -- `parseAllConfigFiles_`
  unfoldable pub parse_all_config_files : (config_file : Bytes) → B.Variables → Outcome B.Variables
  parse_all_config_files config_file v = do
    v1 ← if is_nil config_file then ok v else parse_path config_file v
    v2 ← ignoring_runtime_error v1 (parse_default_file v1)
    ignoring_runtime_error v2 (parse_path global_config_file v2)

  abbrev pub given_or : B.Variables → Bytes → Bytes → Bytes
  given_or v name other = or_else (B.given v name) other

  abbrev pub int_or : B.Variables → Bytes → ℤ → ℤ
  int_or v name other = elim (B.given v name) [ none ↦ other | some text ↦ B.int_of text ]

  -- What `notify` puts into the structures that `getGeneral`, `getDatabase` and `getLogging` bind;
  -- `port` is the default that the constructor found.
  unfoldable pub notify : (port : ℤ) → B.Variables → Configuration
  unfolding get_default_target get_default_host get_default_user
  notify port v = record {
    general = record {
      config_file = given_or v (codes "config") [];
      help = B.switched v (codes "help");
      version = B.switched v (codes "version");
    };
    database_options = record {
      database = given_or v (codes "database") (get_default_target host);
      host = given_or v (codes "host") (get_default_host host);
      port = int_or v (codes "port") port;
      user = given_or v (codes "user") (get_default_user host);
    };
    logging = record {
      loglevel = int_or v (codes "loglevel") (pos 3);
      logfile = given_or v (codes "logfile") [];
    };
  }

  -- The constructor, which computes the defaults, and `parse`; the two hooks do nothing.
  unfoldable pub parse : List Bytes → Outcome (B.Variables × Configuration)
  parse arguments = do
    port ← get_default_port host
    v ← parse_arguments arguments B.empty
    v' ← parse_all_config_files (notify port v).general.config_file v
    ok (v', notify port v')
