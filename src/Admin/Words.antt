-- ===== src/Admin/Words.antt =====
-- src/admin/ui/cmdLine/adminCommandLineInterpreter.cpp: `readLine`, which cuts a line into words.
-- `readline` and its history are the library's: the lines that are still to be read and the lines
-- that were added to the history stand in the state. Boost's functions on texts are a parameter.
pub mod Documents
pub mod RoundTrip
use wdb.Base.{
  Bool, true, false, List, [], ◌∷◌, ◌++◌, Bytes, bytes_eq, is_nil, Option, none, some,
  if◌then◌else◌, drop, length, ◌-◌,
}

-- `boost::trim` and `boost::split(_, _, boost::is_space())`
pub record LineBoost : Type 0 where
  pub trim : Bytes → Bytes
  pub split : Bytes → List Bytes

pub record Terminal : Type 0 where
  pub lines : List Bytes
  pub last_command : Bytes
  pub history : List Bytes

-- `stifle_history(100)`: the history remembers the last 100 lines.
abbrev pub stifled : List Bytes → List Bytes
stifled lines = drop (length lines - 100) lines

-- `readLine`: `none` is the end of the input, for which it throws `EndOfFileInput`; no words are
-- given for a blank line.
unfoldable pub read_line : LineBoost → Terminal → Option (List Bytes) × Terminal
read_line boost t = elim t.lines [
  | [] ↦ (none, t)
  | line ∷ lines ↦
      let cmd = boost.trim line in
      if is_nil cmd then (some [], record t { lines = lines }) else (
        some (boost.split cmd),
        record {
          lines = lines;
          last_command = cmd;
          history =
              if bytes_eq t.last_command cmd then t.history else stifled (t.history ++ line ∷ []);
        },
      )
]
