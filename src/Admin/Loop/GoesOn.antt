-- ===== src/Admin/Loop/GoesOn.antt =====
-- src/admin/ui/cmdLine/adminCommandLineInterpreter.cpp: which commands end the loop `run()`.
use wdb.Base.{
  Bool, true, false, ◌||◌, List, [], ◌∷◌, Bytes, codes, bytes_eq, to_lower, is_nil, some, Outcome,
  ok, fail, Failure, ◌≡◌, refl, ◌⊎◌, ◌↔◌, inl, inr, if◌then◌else◌, arith, Bool-cases, Option-cases,
}
use wdb.Admin.{is_exception, Answer, returned, end_of_file_input, thrown, answer_of, Performer}
use wdb.Admin.Table.{
  Command, help_command, quit_command, create_user_command, change_user_command, drop_user_command,
  stats_command, test_clean_command, vacuum_command, create_database_command, drop_database_command,
  available_commands, find_command,
}
use wdb.Admin.Table.Find.{find_command-quit}
use wdb.Admin.Words.Documents.{trimmed, parts}
use wdb.Admin.Commands.{
  Rights, Session, Options, perform, options, invalid_option, read_options, create_option,
  change_option, with_options, with_argument, without_arguments, create_user, change_user,
  perform_command,
}
use wdb.Admin.Loop.{run}

-- An operation ends in a value or in an exception of C++.
abbrev pub IsSteady : (P : Performer) → (P.Console → Outcome Bool × P.Console) → Type 0
IsSteady P action = (c : P.Console) (e : Failure) → (action c).0 ≡ fail e → is_exception e ≡ true

-- Every operation of a performer does.
pub record AllSteady (P : Performer) : Type 0 where
  pub creates : (u : Bytes) (a r w : Bool) → IsSteady P (P.create_user u a r w)
  pub changes : (u : Bytes) (a r w : Bool) → IsSteady P (P.change_user u a r w)
  pub drops : (u : Bytes) → IsSteady P (P.drop_user u)
  pub lists : (kind : Bytes) → IsSteady P (P.list_stats kind)
  pub cleans : IsSteady P P.test_clean
  pub vacuums : IsSteady P P.vacuum
  pub creates_database : (name : Bytes) → IsSteady P (P.create_database name)
  pub drops_database : (name : Bytes) → IsSteady P (P.drop_database name)

-- A line whose first word is `quit` or `q`, in any case.
abbrev pub is_quit : List Bytes → Bool
is_quit [] = false
is_quit (word ∷ words) =
    bytes_eq (to_lower word) (codes "quit") || bytes_eq (to_lower word) (codes "q")

abbrev pub quits : Bytes → Bool
quits line = if is_nil (trimmed line) then false else is_quit (parts (trimmed line))

-- The lines behind the first that quits; none is left if no line does.
abbrev pub left_over : List Bytes → List Bytes
left_over [] = []
left_over (line ∷ lines) = let rest = left_over lines in if quits line then lines else rest

-- The answer of a command that is not to quit: the loop goes on.
abbrev pub GoesOn : Answer → Type 0
GoesOn (returned done) = Unit
GoesOn end_of_file_input = ⊥
GoesOn (thrown e) = is_exception e ≡ true

answer_of-GoesOn :
    (m : Outcome Bool) → ((e : Failure) → m ≡ fail e → is_exception e ≡ true) → GoesOn (answer_of m)
answer_of-GoesOn (ok done) h = tt
answer_of-GoesOn (fail e) h = h e refl

module _ (P : Performer) (steady : AllSteady P) where
  perform-GoesOn :
      (action : P.Console → Outcome Bool × P.Console)
      → IsSteady P action
      → (s : Session P) → GoesOn (perform P action s).0
  perform-GoesOn action h s = answer_of-GoesOn (action s.console).0 (λ e. h s.console e)

  with_options-GoesOn :
      (usage : Bytes) (action : Rights → P.Console → Outcome Bool × P.Console)
      → ((r : Rights) → IsSteady P (action r))
      → (o : Options) (s : Session P) → GoesOn (with_options P usage action o s).0
  with_options-GoesOn usage action h (options r) s = perform-GoesOn (action r) (h r) s
  with_options-GoesOn usage action h (invalid_option word) s = tt

  with_argument-GoesOn :
      (usage : Bytes) (action : Bytes → P.Console → Outcome Bool × P.Console)
      → ((word : Bytes) → IsSteady P (action word))
      → (input : List Bytes) (s : Session P) → GoesOn (with_argument P usage action input s).0
  with_argument-GoesOn usage action h (name ∷ argument ∷ []) s =
      perform-GoesOn (action argument) (h argument) s
  with_argument-GoesOn usage action h [] s = tt
  with_argument-GoesOn usage action h (name ∷ []) s = tt
  with_argument-GoesOn usage action h (name ∷ argument ∷ other ∷ words) s = tt

  without_arguments-GoesOn :
      (action : P.Console → Outcome Bool × P.Console)
      → IsSteady P action
      → (input : List Bytes) (s : Session P) → GoesOn (without_arguments P action input s).0
  without_arguments-GoesOn action h (name ∷ []) s = perform-GoesOn action h s
  without_arguments-GoesOn action h [] s = tt
  without_arguments-GoesOn action h (name ∷ other ∷ words) s = tt

  create_user-GoesOn : (input : List Bytes) (s : Session P) → GoesOn (create_user P input s).0
  unfolding create_user
  create_user-GoesOn [] s = tt
  create_user-GoesOn (name ∷ []) s = tt
  create_user-GoesOn (name ∷ username ∷ words) s =
      with_options-GoesOn _ _ (λ r. steady.creates username r.admin r.read r.write)
        (read_options create_option words _) s

  change_user-GoesOn : (input : List Bytes) (s : Session P) → GoesOn (change_user P input s).0
  unfolding change_user
  change_user-GoesOn [] s = tt
  change_user-GoesOn (name ∷ []) s = tt
  change_user-GoesOn (name ∷ username ∷ words) s =
      with_options-GoesOn _ _ (λ r. steady.changes username r.admin r.read r.write)
        (read_options change_option words _) s

  -- Only the quit command ends the loop.
  perform_command-GoesOn :
      (command : Command) (input : List Bytes) (s : Session P)
      → (command ≡ quit_command) ⊎ GoesOn (perform_command P command input s).0
  unfolding perform_command
  perform_command-GoesOn quit_command input s = inl refl
  perform_command-GoesOn help_command input s = inr tt
  perform_command-GoesOn create_user_command input s = inr (create_user-GoesOn input s)
  perform_command-GoesOn change_user_command input s = inr (change_user-GoesOn input s)
  perform_command-GoesOn drop_user_command input s =
      inr (with_argument-GoesOn _ _ steady.drops input s)
  perform_command-GoesOn stats_command input s =
      inr (with_argument-GoesOn _ _ (λ kind. steady.lists (to_lower kind)) input s)
  perform_command-GoesOn test_clean_command input s =
      inr (without_arguments-GoesOn _ steady.cleans input s)
  perform_command-GoesOn vacuum_command input s =
      inr (without_arguments-GoesOn _ steady.vacuums input s)
  perform_command-GoesOn create_database_command input s =
      inr (with_argument-GoesOn _ _ steady.creates_database input s)
  perform_command-GoesOn drop_database_command input s =
      inr (with_argument-GoesOn _ _ steady.drops_database input s)

  is_quit_iff :
      (word : Bytes) (words : List Bytes)
      → (find_command (to_lower word) available_commands ≡ some quit_command)
        ↔ (is_quit (word ∷ words) ≡ true)
  is_quit_iff word words = ground (arith, find_command-quit (to_lower word))

  -- A command line that quits ends the loop, any other does not.
  pub run-is_quit :
      (word : Bytes) (words : List Bytes) (s : Session P)
      → ((is_quit (word ∷ words) ≡ true) × (run P (word ∷ words) s ≡ (end_of_file_input, s)))
        ⊎ ((is_quit (word ∷ words) ≡ false)
            × (a : Answer) × (s' : Session P) × (run P (word ∷ words) s ≡ (a, s'))
            × GoesOn a)
  unfolding run perform_command
  run-is_quit word words s = elim (Bool-cases (is_quit (word ∷ words))) [
    | inl quit ↦ inl (quit, rw ((is_quit_iff word words).1 quit, run))
    | inr other ↦ inr (
      other,
      _,
      _,
      refl,
      elim (Option-cases (find_command (to_lower word) available_commands)) [
        | inl e ↦ rw (e, run) tt
        | inr (command, e) ↦ elim (perform_command-GoesOn command (word ∷ words) s) [
          | inl q ↦
              let impossible : is_quit (word ∷ words) ≡ true =
                (is_quit_iff word words).0 (rw q at e) in
              absurd cc
          | inr goes ↦ rw (e, run) goes
        ]
      ],
    )
  ]
