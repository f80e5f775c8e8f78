-- ===== src/Config/Precedence.antt =====
-- src/common/configuration/wdbConfiguration.cpp: which source an option's value is from.
use wdb.Base.{
  List, [], ◌∷◌, Bytes, codes, is_nil, Option, none, some, Outcome, ok, fail, Failure, logic_error,
  runtime_error, bind-eq-ok, ◌≡◌, refl, sym, ◌∙◌, ap, ◌⊎◌, inl, inr, if◌then◌else◌, ℤ,
  Outcome-cases, invalid_query, out_of_range, ereport, null_dereference, undefined,
}
use wdb.Config.{
  Host, ProgramOptions, Configuration, or_else, get_default_config_file, get_default_port,
  ignoring_runtime_error, parse_arguments, parse_stream, parse_opened, parse_path,
  parse_default_file, global_config_file, parse_all_config_files, notify, parse,
}

-- The first of two that is there.
abbrev pub first {ℓ} : {A : Type ℓ} → Option A → Option A → Option A
first none b = b
first (some a) b = some a

ok_injective {ℓ} : {A : Type ℓ} {x y : A} → ok x ≡ ok y → x ≡ y
ok_injective h = cc

pub first-none {ℓ} : {A : Type ℓ} (o : Option A) → first o none ≡ o
first-none none = refl
first-none (some a) = refl

-- What Boost documents: an option has the first value that is stored for it, and `store` throws no
-- `std::runtime_error`.
pub record Stores (B : ProgramOptions) : Type 0 where
  pub listed : B.Parsed → Bytes → Option Bytes
  pub starts : (name : Bytes) → B.given B.empty name ≡ none
  pub stores :
      (p : B.Parsed) (v v' : B.Variables)
      → B.store p v ≡ ok v'
      → (name : Bytes) → B.given v' name ≡ first (B.given v name) (listed p name)
  pub throws :
      (p : B.Parsed) (v : B.Variables) (what : Bytes) → B.store p v ≡ fail (runtime_error what) → ⊥

ignoring-cases {ℓ} :
    {A : Type ℓ} (a : A) (m : Outcome A) {b : A}
    → ignoring_runtime_error a m ≡ ok b
    → (m ≡ ok b) ⊎ ((what : Bytes) × (m ≡ fail (runtime_error what)) × (a ≡ b))
ignoring-cases a (ok c) h = inl h
ignoring-cases a (fail (runtime_error what)) h = inr (what, refl, cc)
ignoring-cases a (fail (logic_error _)) h = inl h
ignoring-cases a (fail invalid_query) h = inl h
ignoring-cases a (fail (out_of_range _)) h = inl h
ignoring-cases a (fail (ereport _ _)) h = inl h
ignoring-cases a (fail null_dereference) h = inl h
ignoring-cases a (fail (undefined _)) h = inl h

module _ (B : ProgramOptions) (host : Host) (documented : Stores B) where
  open documented use {listed}

  abbrev pub in_parsed : Bytes → Outcome B.Parsed → Option Bytes
  in_parsed name (ok p) = listed p name
  in_parsed name (fail e) = none

  abbrev pub in_text : Bytes → Option Bytes → Option Bytes
  in_text name none = none
  in_text name (some text) = in_parsed name (B.parse_config_file text)

  -- What a file says of an option; nothing if it cannot be opened.
  abbrev pub in_file : Bytes → Bytes → Option Bytes
  in_file name path = in_text name (host.read_file path)

  abbrev pub in_default_file : Bytes → Outcome Bytes → Option Bytes
  in_default_file name (ok path) = in_file name path
  in_default_file name (fail e) = none

  abbrev pub in_user_file : Bytes → Bytes → Option Bytes
  in_user_file name path = if is_nil path then none else in_file name path

  parse_stream-given :
      (text : Bytes) (v v' : B.Variables)
      → parse_stream B host text v ≡ ok v'
      → (name : Bytes)
      → B.given v' name ≡ first (B.given v name) (in_parsed name (B.parse_config_file text))
  unfolding parse_stream
  parse_stream-given text v v' h name =
      let (p, e, h') = bind-eq-ok (B.parse_config_file text) _ h in
      rw e (documented.stores p v v' h' name)

  -- A source of options may be left out by an exception that is ignored; then it says nothing.
  parse_opened-given :
      (path : Bytes) (file : Option Bytes) (v v' : B.Variables)
      → parse_opened B host path file v ≡ ok v'
      → (name : Bytes) → B.given v' name ≡ first (B.given v name) (in_text name file)
  parse_opened-given path none v v' h name = cc
  parse_opened-given path (some text) v v' h name = parse_stream-given text v v' h name

  parse_stream-ignored :
      (text : Bytes) (v : B.Variables) (what : Bytes)
      → parse_stream B host text v ≡ fail (runtime_error what)
      → (name : Bytes) → in_parsed name (B.parse_config_file text) ≡ none
  unfolding parse_stream
  parse_stream-ignored text v what h name = elim (Outcome-cases (B.parse_config_file text)) [
    | inl (p, e) ↦ absurd (documented.throws p v what (rw e at h))
    | inr (f, e) ↦ rw e
  ]

  parse_opened-ignored :
      (path : Bytes) (file : Option Bytes) (v : B.Variables) (what : Bytes)
      → parse_opened B host path file v ≡ fail (runtime_error what)
      → (name : Bytes) → in_text name file ≡ none
  parse_opened-ignored path none v what h name = refl
  parse_opened-ignored path (some text) v what h name = parse_stream-ignored text v what h name

  parse_path-given :
      (path : Bytes) (v v' : B.Variables)
      → parse_path B host path v ≡ ok v'
      → (name : Bytes) → B.given v' name ≡ first (B.given v name) (in_file name path)
  unfolding parse_path
  parse_path-given path v v' h name = parse_opened-given path (host.read_file path) v v' h name

  guarded_path-given :
      (path : Bytes) (v v' : B.Variables)
      → ignoring_runtime_error v (parse_path B host path v) ≡ ok v'
      → (name : Bytes) → B.given v' name ≡ first (B.given v name) (in_file name path)
  unfolding parse_path
  guarded_path-given path v v' h name = elim (ignoring-cases v (parse_path B host path v) h) [
    | inl e ↦ parse_path-given path v v' e name
    | inr (what, e, same) ↦ rw (
      ← same,
      parse_opened-ignored path (host.read_file path) v what e name,
      first-none (B.given v name),
    )
  ]

  parse_default_file-path :
      (path : Bytes) (v : B.Variables)
      → get_default_config_file host ≡ ok path
      → parse_default_file B host v ≡ parse_path B host path v
  unfolding parse_default_file
  parse_default_file-path path v e = rw e

  parse_default_file-fail :
      (f : Failure) (v : B.Variables)
      → get_default_config_file host ≡ fail f
      → parse_default_file B host v ≡ fail f
  unfolding parse_default_file
  parse_default_file-fail f v e = rw e

  guarded_default-given :
      (v v' : B.Variables)
      → ignoring_runtime_error v (parse_default_file B host v) ≡ ok v'
      → (name : Bytes)
      → B.given v' name
        ≡ first (B.given v name) (in_default_file name (get_default_config_file host))
  guarded_default-given v v' h name = elim (Outcome-cases (get_default_config_file host)) [
    | inl (path, e) ↦
        rw e (guarded_path-given path v v' (rw (parse_default_file-path path v e) at h) name)
    | inr (f, e) ↦ elim (ignoring-cases v (parse_default_file B host v) h) [
      | inl k ↦ let impossible : fail f ≡ ok v' = rw (parse_default_file-fail f v e) at k in cc
      | inr (what, k, same) ↦ rw (← same, e, first-none (B.given v name))
    ]
  ]

  user_file-given :
      (path : Bytes) (v v' : B.Variables)
      → (if is_nil path then ok v else parse_path B host path v) ≡ ok v'
      → (name : Bytes) → B.given v' name ≡ first (B.given v name) (in_user_file name path)
  user_file-given [] v v' h name =
      let same : v ≡ v' = cc in rw (← same, first-none (B.given v name))
  user_file-given (c ∷ path) v v' h name = parse_path-given (c ∷ path) v v' h name

  all_files-given :
      (path : Bytes) (v v' : B.Variables)
      → parse_all_config_files B host path v ≡ ok v'
      → (name : Bytes)
      → B.given v' name
        ≡ first
            (first
              (first (B.given v name) (in_user_file name path))
              (in_default_file name (get_default_config_file host)))
            (in_file name (global_config_file B host))
  unfolding parse_all_config_files
  all_files-given path v v' h name =
      let (v1, e1, h1) = bind-eq-ok (if is_nil path then ok v else parse_path B host path v) _ h in
      let (v2, e2, h2) =
        bind-eq-ok (ignoring_runtime_error v1 (parse_default_file B host v1)) _ h1 in
      guarded_path-given (global_config_file B host) v2 v' h2 name
      ∙ (rw (guarded_default-given v1 v2 e2 name, user_file-given path v v1 e1 name))

  arguments-given :
      (arguments : List Bytes) (v : B.Variables)
      → parse_arguments B host arguments B.empty ≡ ok v
      → (p : B.Parsed) × (B.parse_command_line arguments ≡ ok p)
        × ((name : Bytes) → B.given v name ≡ listed p name)
  unfolding parse_arguments
  arguments-given arguments v h =
      let (p, e, h') = bind-eq-ok (B.parse_command_line arguments) _ h in
      (p, e, λ name. documented.stores p B.empty v h' name ∙ (rw (documented.starts name)))

  notify-config_file :
      (port : ℤ) (v : B.Variables)
      → (notify B host port v).general.config_file ≡ or_else (B.given v (codes "config")) []
  unfolding notify
  notify-config_file port v = refl

  -- After `parse` an option has the value of the first source that lists it: the command line, the
  -- file that the option `config` of the command line names, if it does, the file in the user's home
  -- directory, and the file of the system. A file that cannot be opened lists nothing. The
  -- structures are those that `notify` makes of these values.
  pub parse-given :
      (arguments : List Bytes) (v' : B.Variables) (c : Configuration)
      → parse B host arguments ≡ ok (v', c)
      → (name : Bytes)
      → (p : B.Parsed) × (port : ℤ) × (B.parse_command_line arguments ≡ ok p)
        × (get_default_port host ≡ ok port)
        × (c ≡ notify B host port v')
        × (B.given v' name
            ≡ first
                (first
                  (first
                    (listed p name)
                    (in_user_file name (or_else (listed p (codes "config")) [])))
                  (in_default_file name (get_default_config_file host)))
                (in_file name (global_config_file B host)))
  unfolding parse
  parse-given arguments v' c h name =
      let (port, ep, hp) = bind-eq-ok (get_default_port host) _ h in
      let (v, ea, ha) = bind-eq-ok (parse_arguments B host arguments B.empty) _ hp in
      let (w, ew, hw) =
        bind-eq-ok (parse_all_config_files B host (notify B host port v).general.config_file v) _
          ha in
      let (p, el, gives) = arguments-given arguments v ea in
      let same = ok_injective hw in
      let same_v : w ≡ v' = ap (λ r. r.0) same in
      let same_c : notify B host port w ≡ c = ap (λ r. r.1) same in
      (
        p,
        port,
        el,
        ep,
        sym same_c ∙ ap (notify B host port) same_v,
        sym (ap (λ x. B.given x name) same_v)
            ∙ (all_files-given _ v w ew name
                ∙ (rw (notify-config_file port v, gives name, gives (codes "config")))),
      )
