-- ===== src/Config/File/Entries.antt =====
-- src/common/configuration/WdbConfigFile.cpp: what `get` answers after `open`.
use wdb.Base.{
  false, List, [], ◌∷◌, ◌++◌, Bytes, codes, bytes_eq, Option, none, some, ok, ◌≡◌, refl, sym, ◌∙◌,
  ap, if◌then◌else◌, All, map, arith,
}
use wdb.Config.Precedence.{first, first-none}
use wdb.Config.File.{up_to, FileBoost, Table, find_key, get, parse, parse_lines, open_file, answer}
use wdb.Config.File.Spaces.{starts_with_comma, FileDocuments}
use wdb.Config.File.Lines.{
  Setting, value_of, line_of, IsSetting, parse-setting, parse-marked, Setting,
}

-- A line of a file: a setting, one that is marked by `! ` to be ignored, or a line with nothing in
-- front of its comment, if it has one.
pub data Entry : Type 0 where
  loaded marked : Setting → Entry
  note : Bytes → Entry

abbrev given_text : (at text key : Bytes) → Option Bytes
given_text at text key = if bytes_eq at key then some text else none

-- The text that a line gives a key.
abbrev pub given : Entry → Bytes → Option Bytes
given (loaded s) key = given_text s.key (value_of s) key
given (marked s) key = given_text (codes "! " ++ s.key) (codes "NULL") key
given (note line) key = none

abbrev pub print_entry : Entry → Bytes
print_entry (loaded s) = line_of s
print_entry (marked s) = codes "! " ++ line_of s
print_entry (note line) = line

abbrev pub IsEntry : Entry → Type 0
IsEntry (loaded s) = IsSetting s
IsEntry (marked s) = IsSetting s × (starts_with_comma s.key ≡ false)
IsEntry (note line) = up_to 35 line ≡ []

-- The text that the last of the entries for a key gives it.
abbrev pub last_text : Bytes → List Entry → Option Bytes
last_text key [] = none
last_text key (e ∷ entries) = first (last_text key entries) (given e key)

-- The table behind a line.
abbrev added : Entry → Table → Table
added (loaded s) table = (s.key, value_of s) ∷ table
added (marked s) table = (codes "! " ++ s.key, codes "NULL") ∷ table
added (note line) table = table

first_assoc : (a b c : Option Bytes) → first (first a b) c ≡ first a (first b c)
first_assoc none b c = refl
first_assoc (some x) b c = refl

find_key-add :
    (key k text : Bytes) (table : Table)
    → find_key key ((k, text) ∷ table)
      ≡ first (if bytes_eq k key then some text else none) (find_key key table)
unfolding find_key
find_key-add key k text table = ground arith

find_key-nil : (key : Bytes) → find_key key [] ≡ none
unfolding find_key
find_key-nil key = refl

find_key-added :
    (key : Bytes) (e : Entry) (table : Table)
    → find_key key (added e table) ≡ first (given e key) (find_key key table)
find_key-added key (loaded s) table = find_key-add key s.key (value_of s) table
find_key-added key (marked s) table = find_key-add key (codes "! " ++ s.key) (codes "NULL") table
find_key-added key (note line) table = refl

module _ (boost : FileBoost) (documents : FileDocuments boost) (file_name : Bytes) where
  parse-entry :
      (e : Entry) (table : Table)
      → IsEntry e
      → parse boost file_name (print_entry e) table ≡ ok (added e table)
  unfolding parse
  parse-entry (loaded s) table h = parse-setting boost documents file_name s table h
  parse-entry (marked s) table (h, k) = parse-marked boost documents file_name s table h k
  parse-entry (note line) table h = rw h

  parse_lines-entries :
      (entries : List Entry) (table : Table)
      → All IsEntry entries
      → (t : Table) × (parse_lines boost file_name (map print_entry entries) table ≡ ok t)
        × ((key : Bytes) → find_key key t ≡ first (last_text key entries) (find_key key table))
  unfolding parse_lines
  parse_lines-entries [] table h = (table, refl, λ key. refl)
  parse_lines-entries (e ∷ entries) table (he, h) =
      let (t, runs, finds) = parse_lines-entries entries (added e table) h in
      (
        t,
        rw (parse-entry e table he) runs,
        λ key.
            finds key
            ∙ (ap (first (last_text key entries)) (find_key-added key e table)
                ∙ sym (first_assoc (last_text key entries) _ (find_key key table))),
      )

  -- A file of entries is read into an empty table, and `get` answers the value of the last entry of
  -- a key; if there is none, it reports the key as ignored if an entry marks it, and as not defined
  -- otherwise. An entry is a key, a blank, `=`, a blank, and words with one blank between two of
  -- them, perhaps with a comment behind, and one that is marked begins with `! `; or it is a line
  -- that is empty or begins with its comment, as the last one of a file that ends with a newline.
  pub get-open_file :
      (entries : List Entry)
      → All IsEntry entries
      → (t : Table) × (open_file boost file_name (some (map print_entry entries)) [] ≡ ok t)
        × ((key : Bytes)
            → get t key
              ≡ answer key (last_text key entries) (last_text (codes "! " ++ key) entries))
  unfolding open_file get
  get-open_file entries h =
      let (t, runs, finds) = parse_lines-entries entries [] h in
      (
        t,
        runs,
        λ key. rw (
          finds key,
          finds (codes "! " ++ key),
          find_key-nil key,
          find_key-nil (codes "! " ++ key),
          first-none (last_text key entries),
          first-none (last_text (codes "! " ++ key) entries),
        ),
      )
