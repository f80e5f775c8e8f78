-- ===== src/Admin/Loop/Ends.antt =====
-- src/admin/ui/cmdLine/adminCommandLineInterpreter.cpp: the loop `run()` ends, and where.
use wdb.Base.{
  ℕ, zero, suc, ◌<◌, true, false, List, [], ◌∷◌, ◌++◌, Bytes, codes, bytes_eq, is_nil, length, none,
  some, message, ◌≡◌, refl, inl, inr, if◌then◌else◌, arith, Bool-cases,
}
use wdb.Admin.{returned, end_of_file_input, thrown, Performer}
use wdb.Admin.Words.{stifled, LineBoost, read_line}
use wdb.Admin.Words.Documents.{is_space, trimmed, parts, Documents}
use wdb.Admin.Commands.{Session}
use wdb.Admin.Loop.{Interpreter, finished, loop, say}
use wdb.Admin.Loop.GoesOn.{AllSteady, left_over, run-is_quit}

module _ (P : Performer) (steady : AllSteady P) where
  parts_is_word : (s : Bytes) → (word : Bytes) × (words : List Bytes) × (parts s ≡ word ∷ words)
  unfolding parts
  parts_is_word [] = ([], [], refl)
  parts_is_word (c ∷ s) =
      let (word, words, e) = parts_is_word s in
      elim (Bool-cases (is_space c)) [
        | inl space ↦ ([], word ∷ words, rw (space, e))
        | inr other ↦ (c ∷ word, words, rw (other, e))
      ]

  module _ (boost : LineBoost) (documents : Documents boost) where
    read_line-end :
        (last : Bytes) (history : List Bytes)
        → read_line boost (record { lines = []; last_command = last; history = history })
          ≡ (none, record { lines = []; last_command = last; history = history })
    unfolding read_line
    read_line-end last history = refl

    module _ (line : Bytes) (lines : List Bytes) (last : Bytes) (history : List Bytes) where
      read_line-blank :
          is_nil (trimmed line) ≡ true
          → read_line boost
              (record { lines = line ∷ lines; last_command = last; history = history })
            ≡ (some [], record { lines = lines; last_command = last; history = history })
      unfolding read_line
      read_line-blank h = rw (documents.trims line, h)

      read_line-words :
          is_nil (trimmed line) ≡ false
          → (history' : List Bytes) × (read_line boost
                (record { lines = line ∷ lines; last_command = last; history = history })
              ≡ (
                some (parts (trimmed line)),
                record { lines = lines; last_command = trimmed line; history = history' },
              ))
      unfolding read_line
      read_line-words h = (
        if bytes_eq last (trimmed line) then history else stifled (history ++ line ∷ []),
        rw (documents.trims line, h, documents.splits (trimmed line)),
      )

    -- Where every operation ends in a value or an exception, the loop ends within one round for each
    -- line and one more, by `EndOfFileInput`: the lines that it leaves unread are those behind the
    -- first whose first word is `quit` or `q` in any case, and none if there is no such line.
    -- Exceptions of other commands, blank lines and unknown commands do not end it.
    pub loop_ends :
        (lines : List Bytes) (last : Bytes) (history : List Bytes) (session : Session P) (fuel : ℕ)
        → length lines < fuel
        → (i : Interpreter P) × (loop P boost fuel (record {
          terminal = record { lines = lines; last_command = last; history = history };
          session = session;
        })
            ≡ some (finished i))
          × (i.terminal.lines ≡ left_over lines)
    unfolding loop
    loop_ends lines last history session zero h = absurd (omega arith)
    loop_ends [] last history session (suc fuel) h =
        let e = read_line-end last history in
        (
          record {
            terminal = record { lines = []; last_command = last; history = history };
            session = say P (codes "") session;
          },
          rw (e, loop, e),
          refl,
        )
    loop_ends (line ∷ lines) last history session (suc fuel) h =
        elim (Bool-cases (is_nil (trimmed line))) [
          | inl blank ↦
              let (i, runs, left) = loop_ends lines last history session fuel (omega arith) in
              let e = read_line-blank line lines last history blank in
              (i, rw (e, loop, e) runs, rw blank left)
          | inr more ↦
              let (history', e) = read_line-words line lines last history more in
              let (word, words, w) = parts_is_word (trimmed line) in
              let rest =
                λ (s' : Session P). loop_ends lines (trimmed line) history' s' fuel (omega arith) in
              elim (run-is_quit P steady word words session) [
                | inl (quit, r) ↦ (
                  record {
                    terminal = record {
                      lines = lines;
                      last_command = trimmed line;
                      history = history';
                    };
                    session = session;
                  },
                  rw (e, w, loop, r, e, r),
                  rw (more, w, quit),
                )
                | inr (other, returned done, s', r, goes) ↦
                    let (i, runs, left) = rest s' in
                    (i, rw (e, w, loop, r, e, r) runs, rw (more, w, other) left)
                | inr (other, thrown f, s', r, goes) ↦
                    let (i, runs, left) = rest (say P (message f) s') in
                    (i, rw (e, w, loop, r, goes, e, r) runs, rw (more, w, other) left)
                | inr (other, end_of_file_input, s', r, goes) ↦ absurd goes
              ]
        ]
