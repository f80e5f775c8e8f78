-- ===== src/Tests/Administration.antt =====
-- The administration program on concrete command lines, and a server for one user.
use wdb.Base.{
  Bool, true, false, not, List, [], ◌∷◌, ◌++◌, Bytes, codes, bytes_eq, is_nil, to_lower, length,
  ◌+◌, Option, none, some, Outcome, ok, fail, Failure, runtime_error, pos, ◌≡◌, refl, if◌then◌else◌,
  All,
}
use wdb.Admin.{is_exception, Performer}
use wdb.Admin.Words.{LineBoost, read_line}
use wdb.Admin.Words.Documents.{is_space, trimmed, parts, Documents}
use wdb.Admin.Words.RoundTrip.{IsBlank, IsWord, unwords, read_line-unwords}
use wdb.Admin.Commands.{
  Rights, Session, with_options, create_user_usage, change_user_usage, create_user, change_user,
}
use wdb.Admin.Commands.Asked.{created, changed, create_user-change_user}
use wdb.Admin.Loop.{Interpreter, finished, loop}
use wdb.Admin.Loop.GoesOn.{left_over}
use wdb.Admin.Transactions.{Result, Pqxx}
use wdb.Admin.Jobs.{Setup}
use wdb.Admin.Operations.Steady.{Throws}
use wdb.Admin.Output.{output}
use wdb.Admin.Output.Ends.{program_ends}
use wdb.Admin.Users.{member_query, revoke_statement, grant_statement}
use wdb.Admin.Users
use wdb.Admin.Users.Membership.{
  Role, admin, read, write, role_name, has, put, Serves, change_user-holds,
}

abbrev line_boost : LineBoost
line_boost = record { trim = trimmed; split = parts }

line_boost-Documents : Documents line_boost
line_boost-Documents = record { trims = λ s. refl; splits = λ s. refl }

-- A performer that notes what it prints and whose `vacuum` throws.
abbrev noting : Performer
noting = record {
  Console = List Bytes;
  info = λ what c. c ++ what ∷ [];
  create_user = λ u a r w c. (ok true, c ++ u ∷ []);
  change_user = λ u a r w c. (ok true, c ++ u ∷ []);
  drop_user = λ u c. (ok false, c ++ u ∷ []);
  list_stats = λ kind c. (ok true, c ++ kind ∷ []);
  test_clean = λ c. (ok true, c);
  vacuum = λ c. (fail (runtime_error (codes "no connection")), c);
  create_database = λ u c. (ok true, c ++ u ∷ []);
  drop_database = λ u c. (ok true, c ++ u ∷ []);
}

abbrev typed : List Bytes
typed =
    codes "createuser bob write"
    ∷ codes "vacuum"
    ∷ codes "   "
    ∷ codes "frobnicate"
    ∷ codes " QUIT now"
    ∷ codes "stats io"
    ∷ []

abbrev fresh : Session noting
fresh = record { console = []; help = [] }

abbrev two_spaces : Bytes
two_spaces = codes "  "

two_spaces-IsBlank : IsBlank two_spaces
unfolding is_space
two_spaces-IsBlank = (refl, (refl, tt))

dropuser-IsWord : IsWord (codes "dropuser")
unfolding is_space
dropuser-IsWord = (refl, (refl, (refl, (refl, (refl, (refl, (refl, (refl, (refl, tt)))))))))

bob-IsWord : All IsWord (codes "bob" ∷ [])
unfolding is_space
bob-IsWord = ((refl, (refl, (refl, (refl, tt)))), tt)

read_line-unwords_example :
    read_line line_boost (record {
      lines =
          (two_spaces ++ (unwords (codes "dropuser") (codes "bob" ∷ []) ++ two_spaces))
          ∷ codes "q"
          ∷ [];
      last_command = codes "stats io";
      history = [];
    })
    ≡ (
      some (codes "dropuser" ∷ codes "bob" ∷ []),
      record {
        lines = codes "q" ∷ [];
        last_command = codes "dropuser bob";
        history =
            if bytes_eq (codes "stats io") (codes "dropuser bob")
            then []
            else (two_spaces ++ (unwords (codes "dropuser") (codes "bob" ∷ []) ++ two_spaces)) ∷ [];
      },
    )
read_line-unwords_example =
    read_line-unwords line_boost line_boost-Documents two_spaces two_spaces (codes "dropuser")
      (codes "bob" ∷ []) (codes "q" ∷ []) (codes "stats io") [] two_spaces-IsBlank
      two_spaces-IsBlank dropuser-IsWord bob-IsWord

abbrev asking : List Bytes
asking = codes "Write" ∷ codes "NOREAD" ∷ codes "write" ∷ []

create_user-change_user_example :
    (create_user noting (codes "createuser" ∷ codes "bob" ∷ asking) fresh
      ≡ with_options noting create_user_usage
          (λ r. noting.create_user (codes "bob") r.admin r.read r.write)
          (created asking (record { admin = false; read = true; write = false }))
          fresh)
    × (change_user noting (codes "createuser" ∷ codes "bob" ∷ asking) fresh
        ≡ with_options noting change_user_usage
            (λ r. noting.change_user (codes "bob") r.admin r.read r.write)
            (changed asking (record { admin = false; read = false; write = false }))
            fresh)
create_user-change_user_example =
    create_user-change_user noting (codes "createuser") (codes "bob") asking fresh

-- A server that knows the roles of the user `bob`.
abbrev bob : Bytes
bob = codes "bob"

abbrev rows_if : Bool → Result
rows_if true = record { columns = []; rows = [] ∷ [] }
rows_if false = record { columns = []; rows = [] }

rows_if-is_nil : (b : Bool) → not (is_nil (rows_if b).rows) ≡ b
rows_if-is_nil true = refl
rows_if-is_nil false = refl

abbrev serve_role : Role → Bytes → (Outcome Result × Rights) → Rights → Outcome Result × Rights
serve_role role statement other t =
    if bytes_eq statement (member_query (role_name role) bob)
    then (ok (rows_if (has t role)), t)
    else if bytes_eq statement (grant_statement (role_name role) bob)
    then (ok (rows_if false), put role true t)
    else if bytes_eq statement (revoke_statement (role_name role) bob)
    then (ok (rows_if false), put role false t)
    else other

abbrev serve : Bytes → Rights → Outcome Result × Rights
serve statement t =
    serve_role admin statement
      (serve_role read statement
        (serve_role write statement (fail (runtime_error (codes "syntax error")), t) t) t)
      t

abbrev one_user : Pqxx
one_user = record {
  Database = Rights;
  Transaction = Rights;
  exec = serve;
  esc = λ text. text;
  to_int = λ text. ok (pos 0);
  no_such_column = λ i. runtime_error (codes "no such column");
  no_such_row = λ i. runtime_error (codes "no such row");
  connect = λ text d. (ok tt, d);
  perform =
      λ A job d. elim (job d).0 [ ok a ↦ (ok tt, some a, (job d).1) | fail e ↦ (fail e, none, d) ];
  nontransaction = λ name d. (ok d, d);
  commit = λ t. (ok tt, t);
  close = λ t. t;
  system = λ command d. (pos 0, d);
}

serves_bob : Serves one_user bob
unfolding bytes_eq
serves_bob = record { holds = λ t. t; asks = asks; grants = grants; revokes = revokes }
  where
    asks :
        (role : Role) (t : Rights)
        → (r : Result) × (serve (member_query (role_name role) bob) t ≡ (ok r, t))
          × (not (is_nil r.rows) ≡ has t role)
    asks admin t = (rows_if t.admin, refl, rows_if-is_nil t.admin)
    asks read t = (rows_if t.read, refl, rows_if-is_nil t.read)
    asks write t = (rows_if t.write, refl, rows_if-is_nil t.write)

    grants :
        (role : Role) (t : Rights)
        → (r : Result) × (t' : Rights) × (serve (grant_statement (role_name role) bob) t
            ≡ (ok r, t'))
          × (t' ≡ put role true t)
    grants admin t = (rows_if false, put admin true t, refl, refl)
    grants read t = (rows_if false, put read true t, refl, refl)
    grants write t = (rows_if false, put write true t, refl, refl)

    revokes :
        (role : Role) (t : Rights)
        → (r : Result) × (t' : Rights) × (serve (revoke_statement (role_name role) bob) t
            ≡ (ok r, t'))
          × (t' ≡ put role false t)
    revokes admin t = (rows_if false, put admin false t, refl, refl)
    revokes read t = (rows_if false, put read false t, refl, refl)
    revokes write t = (rows_if false, put write false t, refl, refl)

abbrev writer : Rights
writer = record { admin = false; read = false; write = true }

abbrev reader : Rights
reader = record { admin = false; read = true; write = false }

change_user-holds_example :
    (t' : one_user.Transaction) × (Users.change_user one_user bob reader writer ≡ (ok tt, t'))
    × (serves_bob.holds t' ≡ reader)
change_user-holds_example = change_user-holds one_user bob serves_bob reader writer

-- A server that counts four rows and grants everything.
abbrev count_row : Result
count_row = record { columns = codes "count" ∷ []; rows = (some (codes "4") ∷ []) ∷ [] }

abbrev perform_once :
    {A : Type 0} → Outcome A × Rights → Rights → Outcome (Unit {0}) × Option A × Rights
perform_once (ok a, t) d = (ok tt, some a, t)
perform_once (fail e, t) d = (fail e, none, d)

abbrev counting : Pqxx
counting = record one_user {
  exec = λ statement t. (ok count_row, t);
  perform = λ A job d. perform_once (job d) d;
}

perform_once-exception :
    {A : Type 0} (p : Outcome A × Rights) (d : Rights) (e : Failure)
    → (perform_once p d).0 ≡ fail e
    → ((f : Failure) → p.0 ≡ fail f → is_exception f ≡ true)
    → is_exception e ≡ true
perform_once-exception (ok a, t) d e h safe = cc
perform_once-exception (fail f, t) d e h safe = safe e (let same : f ≡ e = cc in rw same)

counting-Throws : Throws counting
counting-Throws = record {
  execs = λ statement. record { ends = λ t e h. cc };
  connects = λ text. record { ends = λ d e h. cc };
  opens = λ name d e h. cc;
  commits = record { ends = λ t e h. cc };
  reads = λ text e h. cc;
  columns = λ i. refl;
  counts_blobs = λ t r h. let same : count_row ≡ r = cc in rw (← same) (codes "4", [], [], refl);
  counts_provided = λ t r h. let same : count_row ≡ r = cc in rw (← same) (codes "4", [], [], refl);
  performs = λ A job d e h safe. perform_once-exception (job d) d e h (safe.ends d);
}

abbrev setup : Setup
setup = record {
  connection_text = codes "dbname=wdb";
  wci_user = codes "wdb";
  print_additional_info = true;
  wci_schema = codes "wci";
  wdb_schema = codes "wdb_int";
  pkglibdir = codes "/usr/lib/wdb";
  to_lower_copy = to_lower;
}

abbrev at_start : Session (output counting setup)
unfolding output
at_start = record {
  console = record { screen = []; log = []; connected = false; database = writer };
  help = [];
}

program_ends_example :
    (i : Interpreter (output counting setup)) × (loop
        (output counting setup)
        line_boost
        (length typed + 1)
        (record {
          terminal = record { lines = typed; last_command = []; history = [] };
          session = at_start;
        })
      ≡ some (finished i))
    × (i.terminal.lines ≡ left_over typed)
program_ends_example =
    program_ends counting setup counting-Throws line_boost line_boost-Documents typed [] [] at_start
