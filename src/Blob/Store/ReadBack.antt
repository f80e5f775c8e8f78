-- ===== src/Blob/Store/ReadBack.antt =====
-- What is written is read back: `writeFile` and `readFile` of src/blob/fileblobImpl.cpp.
use wdb.Base.{
  ℕ, ◌<◌, ltb, lt→ltb, Bool, true, false, List, length, Bytes, codes, none, some, ℤ, ok, fail,
  runtime_error, ◌>>=◌, ◌≡◌, ◌≢◌, refl, ◌∙◌, arith, Option-cases, inl, inr, pos,
}
use wdb.Blob.{bits, path_of, get_file_path}
use wdb.Blob.RoundTrip.{path_of-bits}
use wdb.Blob.Store.{
  File, Storage, Environment, ◌▹◌, continue_with, look_up, erase, put, with_files, IsReady,
}
use wdb.Blob.Store.Initialize.{initialize_file_storage-ready}
use wdb.Blob.Store.Entries.{look_up-put, look_up-put-other, look_up-erase-other}
use wdb.Blob.Store.Files.{
  write_file, write_sized-length, read_file, read_file_of_size, get_bstream, remove_existing,
  rename, write_and_rename,
}

same_ltb : (n : ℕ) → ltb n n ≡ false
same_ltb n = ground arith

larger_ltb : (n m : ℕ) → m < n → ltb n m ≡ false
larger_ltb n m h = ground arith

-- No call of the operating system fails on a path for a text, and the temporary file is another.
pub record Accepts (env : Environment) (path text : Bytes) : Type 0 where
  pub stream : env.accept text ≡ (text, true)
  pub removes : env.remove_error path ≡ none
  pub renames : env.rename_error path ≡ none
  pub opens : env.opens path ≡ true
  pub temporary : env.tmp_file ≢ path

rename-files :
    (env : Environment) (path text : Bytes) (s : Storage)
    → Accepts env path text
    → (file : File) → look_up env.tmp_file s.files ≡ some file
    → rename env env.tmp_file path s
      ≡ (ok tt, with_files (put path file (erase env.tmp_file s.files)) s)
rename-files env path text s accepts file h = rw (accepts.renames, ◌▹◌, continue_with, h) refl

module _ (env : Environment) where
  abbrev file_of : Bytes → File
  file_of text = record { contents = text; written = env.now }

  -- The entries behind a write to `path`, from those without the old file.
  abbrev written_files : Bytes → Bytes → List (Bytes × File) → List (Bytes × File)
  written_files path text files =
      put path (file_of text) (erase env.tmp_file (put env.tmp_file (file_of text) files))

  write_and_rename-files :
      (s : Storage) (path text : Bytes)
      → Accepts env path text
      → write_and_rename env path text s ≡ (ok tt, with_files (written_files path text s.files) s)
  write_and_rename-files s path text accepts = rw accepts.stream (
      rename-files env path text
        (with_files (put env.tmp_file (record { contents = text; written = env.now }) s.files) s)
        accepts (record { contents = text; written = env.now }) (look_up-put _ _ s.files))

module _ (env : Environment) (s : Storage) where
  remove_existing-files :
      (path text : Bytes)
      → Accepts env path text
      → (existed : Bool) × (files : List (Bytes × File)) × (remove_existing env path s
          ≡ (ok existed, with_files files s))
        × ((p : Bytes) → path ≢ p → look_up p files ≡ look_up p s.files)
  remove_existing-files path text accepts = elim (Option-cases (look_up path s.files)) [
    | inl h ↦ (false, s.files, rw (h, remove_existing) refl, λ p ne. refl)
    | inr (file, h) ↦ (
      true,
      erase path s.files,
      rw (h, remove_existing, accepts.removes) refl,
      λ p ne. look_up-erase-other p path s.files ne,
    )
  ]

  module _ (base : Bytes) (ready : IsReady s base) (id : ℤ) where
    pub get_file_path-ready : get_file_path s.base id ≡ ok (path_of base id)
    unfolding get_file_path
    get_file_path-ready = rw ready.1 refl

    -- A blob's file in a storage that is ready holds the text: all reads of a blob go through this.
    pub get_bstream-entry :
        (file : File)
        → look_up (path_of base id) s.files ≡ some file
        → env.opens (path_of base id) ≡ true
        → get_bstream env id s ≡ ok (some file.contents)
    unfolding get_bstream
    get_bstream-entry file found opens = rw (get_file_path-ready, ◌>>=◌, found, opens) refl

    pub read_file-ready : read_file env id s ≡ (
      get_bstream env id s >>= elim [
        | none ↦ fail (runtime_error (codes "Unable to read file"))
        | some text ↦ ok text
      ],
      s,
    )
    unfolding read_file
    read_file-ready = rw (initialize_file_storage-ready env s ready, ◌▹◌, continue_with) refl

    pub write_file-entries :
        (text : Bytes)
        → Accepts env (path_of base id) text
        → (files : List (Bytes × File)) × (write_file env id text (pos (length text)) s
            ≡ (ok tt, with_files files s))
          × (look_up (path_of base id) files ≡ some (file_of env text))
          × ((p : Bytes)
              → path_of base id ≢ p
              → env.tmp_file ≢ p
              → look_up p files ≡ look_up p s.files)
    unfolding write_file
    write_file-entries text accepts =
        let path = path_of base id in
        let (existed, files, removed, others) = remove_existing-files path text accepts in
        (
          written_files env path text files,
          rw
              (
                initialize_file_storage-ready env s ready,
                ◌▹◌,
                continue_with,
                get_file_path-ready,
                removed,
                write_sized-length env path text,
              )
              (write_and_rename-files env (with_files files s) path text accepts),
          look_up-put _ _ _,
          λ p ne ne'.
              look_up-put-other p path _ _ ne
              ∙ look_up-erase-other p env.tmp_file (put env.tmp_file (file_of env text) files) ne'
              ∙ look_up-put-other p env.tmp_file (file_of env text) files ne'
              ∙ others p ne,
        )

-- In a storage that is ready, where the operating system accepts a text for the file of an id, the
-- write succeeds and changes only files; from then on this id reads as the text, by `readFile`
-- into a vector and by `readFile` into an array of the size of the text, while a smaller array is
-- refused; and the file of another id of 64 bits, if it is not the temporary file, is as it was.
pub read_file-write_file :
    (env : Environment) (s : Storage) (base : Bytes) (id other : ℤ) (text : Bytes) (size : ℕ)
    → IsReady s base
    → bits id < 18446744073709551616
    → bits other < 18446744073709551616
    → bits id ≢ bits other
    → env.tmp_file ≢ path_of base other
    → size < length text
    → Accepts env (path_of base id) text
    → (files : List (Bytes × File)) × (write_file env id text (pos (length text)) s
        ≡ (ok tt, with_files files s))
      × (read_file env id (with_files files s) ≡ (ok text, with_files files s))
      × (read_file_of_size env id (length text) (with_files files s)
          ≡ (ok text, with_files files s))
      × (read_file_of_size env id size (with_files files s)
          ≡ (fail (runtime_error (codes "File was too big")), with_files files s))
      × (look_up (path_of base other) files ≡ look_up (path_of base other) s.files)
unfolding read_file_of_size
read_file-write_file env s base id other text size ready in_range in_other differs temporary small
      accepts =
    let (files, writes, entry, others) = write_file-entries env s base ready id text accepts in
    let s' = with_files files s in
    let stream = get_bstream-entry env s' base ready id (file_of env text) entry accepts.opens in
    let start = initialize_file_storage-ready env s' ready in
    (
      files,
      writes,
      rw (read_file-ready env s' base ready id, stream) refl,
      rw (start, ◌▹◌, continue_with, stream, same_ltb (length text)) refl,
      rw
          (
            start,
            ◌▹◌,
            continue_with,
            stream,
            larger_ltb (length text) size small,
            lt→ltb size (length text) small,
          )
          refl,
      others (path_of base other)
          (λ e. differs (path_of-bits env.paths base id other in_range in_other e)) temporary,
    )
