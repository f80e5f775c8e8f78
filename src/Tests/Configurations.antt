-- ===== src/Tests/Configurations.antt =====
-- The options of a program that is started with a command line and two files, and a file of keys.
use wdb.Base.{
  false, List, [], ◌∷◌, ◌++◌, Bytes, codes, bytes_eq, Option, none, some, ok, if◌then◌else◌, ℤ, pos,
  ◌≡◌, refl, arith, map,
}
use wdb.Admin.Words.Documents.{is_space, trimmed}
use wdb.Config.File.{FileBoost, Table, get, up_to, open_file, answer}
use wdb.Config.File.Spaces.{squeezed, tightened, FileDocuments}
use wdb.Config.File.Lines.{Setting, IsSetting}
use wdb.Config.File.Entries.{Entry, loaded, marked, note, print_entry, last_text, get-open_file}
use wdb.Config.{
  Host, ProgramOptions, Configuration, or_else, get_default_config_file, get_default_port,
  global_config_file, notify, parse,
}
use wdb.Config.Precedence.{first, Stores, in_file, in_default_file, in_user_file, parse-given}

abbrev Values : Type 0
Values = List (Bytes × Bytes)

abbrev value_of : Values → Bytes → Option Bytes
value_of [] name = none
value_of ((key, text) ∷ values) name = if bytes_eq key name then some text else value_of values name

value_of-append :
    (v p : Values) (name : Bytes)
    → value_of (v ++ p) name ≡ first (value_of v name) (value_of p name)
value_of-append [] p name = refl
value_of-append ((key, text) ∷ v) p name = ground (arith, value_of-append v p name)

abbrev pairs : List Bytes → Values
pairs [] = []
pairs (name ∷ []) = []
pairs (name ∷ text ∷ more) = (name, text) ∷ pairs more

-- A command line of names and values, and files that give the user.
abbrev plain_options : ProgramOptions
plain_options = record {
  Variables = Values;
  Parsed = Values;
  empty = [];
  parse_command_line = λ arguments. ok (pairs arguments);
  parse_config_file = λ text. ok ((codes "user", text) ∷ []);
  store = λ p v. ok (v ++ p);
  given = value_of;
  switched = λ v name. false;
  int_of = λ text. pos 5432;
}

stores_step :
    (p v v' : Values)
    → ok (v ++ p) ≡ ok v'
    → (name : Bytes) → value_of v' name ≡ first (value_of v name) (value_of p name)
stores_step p v v' h name = let same : v ++ p ≡ v' = cc in rw (← same) (value_of-append v p name)

plain_options-Stores : Stores plain_options
plain_options-Stores = record {
  listed = value_of;
  starts = λ name. refl;
  stores = stores_step;
  throws = λ p v what h. cc;
}

abbrev host : Host
host = record {
  getenv = λ name. none;
  wordexp = λ text. some (codes "/home/met/.wdb/wdb.conf" ∷ []);
  read_file =
      λ path. if bytes_eq path (codes "/etc/wdb.conf") then some (codes "operator") else none;
  lexical_cast = λ text. none;
  sysconfdir = codes "/etc";
}

abbrev started_with : List Bytes
started_with = codes "database" ∷ codes "test" ∷ []

abbrev found_values : Values
found_values = (codes "database", codes "test") ∷ (codes "user", codes "operator") ∷ []

abbrev found_configuration : Configuration
found_configuration = record {
  general = record { config_file = []; help = false; version = false };
  database_options = record {
    database = codes "test";
    host = [];
    port = pos 5432;
    user = codes "operator";
  };
  logging = record { loglevel = pos 3; logfile = [] };
}

parse_runs : parse plain_options host started_with ≡ ok (found_values, found_configuration)
unfolding parse get_default_port wdb.Config.parse_arguments wdb.Config.parse_all_config_files
    wdb.Config.parse_default_file get_default_config_file wdb.Config.parse_path
    wdb.Config.parse_stream notify bytes_eq
parse_runs = refl

parse-given_example :
    (p : Values) × (port : ℤ) × (plain_options.parse_command_line started_with ≡ ok p)
    × (get_default_port host ≡ ok port)
    × (found_configuration ≡ notify plain_options host port found_values)
    × (value_of found_values (codes "user")
        ≡ first
            (first
              (first (value_of p (codes "user")) (
                in_user_file plain_options host plain_options-Stores
                  (codes "user")
                  (or_else (value_of p (codes "config")) [])))
              (in_default_file plain_options host plain_options-Stores
                (codes "user")
                (get_default_config_file host)))
            (in_file plain_options host plain_options-Stores
              (codes "user")
              (global_config_file plain_options host)))
unfolding plain_options-Stores
parse-given_example =
    parse-given plain_options host plain_options-Stores started_with found_values
      found_configuration parse_runs (codes "user")

abbrev file_boost : FileBoost
file_boost = record { one_space = squeezed false; before_comma = tightened; trim = trimmed }

file_boost-FileDocuments : FileDocuments file_boost
file_boost-FileDocuments = record { spaces = λ s. refl; commas = λ s. refl; trims = λ s. refl }

-- `t = K d # x`
abbrev temperature : Setting
temperature = record {
  key = codes "t";
  word = codes "K";
  words = codes "d" ∷ [];
  comment = codes "# x";
}

abbrev snow : Setting
snow = record { key = codes "s"; word = codes "m"; words = []; comment = [] }

temperature-IsSetting : IsSetting temperature
unfolding is_space up_to
temperature-IsSetting = record {
  key_is_word = (refl, (refl, tt));
  key_is_loaded = refl;
  key_lacks = (refl, tt);
  words_are_parts = (((refl, (refl, tt)), refl), (((refl, (refl, tt)), refl), tt));
  line_lacks = (refl, (refl, (refl, (refl, (refl, (refl, (refl, tt)))))));
  comment_begins = refl;
}

snow-IsSetting : IsSetting snow
unfolding is_space up_to
snow-IsSetting = record {
  key_is_word = (refl, (refl, tt));
  key_is_loaded = refl;
  key_lacks = (refl, tt);
  words_are_parts = (((refl, (refl, tt)), refl), tt);
  line_lacks = (refl, (refl, (refl, (refl, (refl, tt)))));
  comment_begins = refl;
}

abbrev four_lines : List Entry
four_lines = loaded temperature ∷ note (codes "# x") ∷ marked snow ∷ note [] ∷ []

comment_begins : up_to 35 (codes "# x") ≡ []
unfolding up_to
comment_begins = refl

nothing_begins : up_to 35 [] ≡ []
unfolding up_to
nothing_begins = refl

get-open_file_example :
    (t : Table) × (open_file file_boost (codes "u") (some (map print_entry four_lines)) [] ≡ ok t)
    × ((key : Bytes)
        → get t key
          ≡ answer key (last_text key four_lines) (last_text (codes "! " ++ key) four_lines))
get-open_file_example =
    get-open_file file_boost file_boost-FileDocuments (codes "u") four_lines
      (temperature-IsSetting, (comment_begins, ((snow-IsSetting, refl), (nothing_begins, tt))))
