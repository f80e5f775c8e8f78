-- ===== src/Admin/Commands/Asked.antt =====
-- src/admin/ui/cmdLine/adminCommandLineInterpreter.cpp: the rights that the options of `createuser`
-- and `changeuser` ask for.
use wdb.Base.{
  Bool, true, false, not, ◌&&◌, ◌||◌, List, [], ◌∷◌, Bytes, codes, bytes_eq, bytes_eq_iff, to_lower,
  Option, none, some, ◌≡◌, ap, if◌then◌else◌, arith,
}
use wdb.Admin.{Performer}
use wdb.Admin.Commands.{
  Rights, create_option, change_option, Options, options, invalid_option, read_options, Session,
  create_user_usage, change_user_usage, with_options, create_user, change_user,
}

-- The first word that is none of three options, read without regard to case.
abbrev pub first_invalid : (a b c : Bytes) → List Bytes → Option Bytes
first_invalid a b c [] = none
first_invalid a b c (word ∷ words) =
    let rest = first_invalid a b c words in
    if bytes_eq (to_lower word) a || (bytes_eq (to_lower word) b || bytes_eq (to_lower word) c)
    then rest
    else some word

-- An option is among the words.
abbrev pub has : Bytes → List Bytes → Bool
has option [] = false
has option (word ∷ words) = bytes_eq (to_lower word) option || has option words

-- The rights after the loop of `createuser` over the options, and of `changeuser`.
abbrev pub created : List Bytes → Rights → Options
created words r = elim (first_invalid (codes "admin") (codes "write") (codes "noread") words) [
  | none ↦ options (record {
    admin = r.admin || has (codes "admin") words;
    read = r.read && not (has (codes "noread") words);
    write = r.write || has (codes "write") words;
  })
  | some word ↦ invalid_option word
]

abbrev pub changed : List Bytes → Rights → Options
changed words r = elim (first_invalid (codes "admin") (codes "write") (codes "read") words) [
  | none ↦ options (record {
    admin = r.admin || has (codes "admin") words;
    read = r.read || has (codes "read") words;
    write = r.write || has (codes "write") words;
  })
  | some word ↦ invalid_option word
]

read_options-create :
    (words : List Bytes) (r : Rights) → read_options create_option words r ≡ created words r
unfolding read_options create_option
read_options-create [] r = ground arith
read_options-create (word ∷ words) r = ground (
  arith,
  bytes_eq_iff (to_lower word) (codes "admin"),
  bytes_eq_iff (to_lower word) (codes "write"),
  bytes_eq_iff (to_lower word) (codes "noread"),
  read_options-create words (record r { admin = true }),
  read_options-create words (record r { write = true }),
  read_options-create words (record r { read = false }),
)

read_options-change :
    (words : List Bytes) (r : Rights) → read_options change_option words r ≡ changed words r
unfolding read_options change_option
read_options-change [] r = ground arith
read_options-change (word ∷ words) r = ground (
  arith,
  bytes_eq_iff (to_lower word) (codes "admin"),
  bytes_eq_iff (to_lower word) (codes "write"),
  bytes_eq_iff (to_lower word) (codes "read"),
  read_options-change words (record r { admin = true }),
  read_options-change words (record r { write = true }),
  read_options-change words (record r { read = true }),
)

module _ (P : Performer) (name username : Bytes) (words : List Bytes) (s : Session P) where
  -- `createuser` with a user and any options: the first word that is none of `admin`, `write` and
  -- `noread`, in any case, is reported with the usage and no user is created; without such a word
  -- the user is created with the right to administrate and to write if the options say so, in any
  -- order and any number, and with the right to read unless `noread` is among them. `changeuser`
  -- does the same with `read` for `noread`, where the right to read is taken away unless asked for.
  pub create_user-change_user :
      (create_user P (name ∷ username ∷ words) s
        ≡ with_options P create_user_usage
            (λ r. P.create_user username r.admin r.read r.write)
            (created words (record { admin = false; read = true; write = false }))
            s)
      × (change_user P (name ∷ username ∷ words) s
          ≡ with_options P change_user_usage
              (λ r. P.change_user username r.admin r.read r.write)
              (changed words (record { admin = false; read = false; write = false }))
              s)
  unfolding create_user change_user
  create_user-change_user = (
    ap
        (λ o.
          with_options P create_user_usage (λ r. P.create_user username r.admin r.read r.write) o s)
        (read_options-create words _),
    ap
        (λ o.
          with_options P change_user_usage (λ r. P.change_user username r.admin r.read r.write) o s)
        (read_options-change words _),
  )
