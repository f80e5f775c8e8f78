-- ===== src/Blob/Store/Files.antt =====
-- The operations on one file, src/blob/fileblobImpl.cpp.
use wdb.Base.{
  ℕ, ◌+◌, ◌*◌, ltb, Bool, true, false, [], ◌∷◌, ◌++◌, length, drop, Bytes, codes, show_ℕ, show_ℤ,
  Option, none, some, ℤ, pos, negsuc, Outcome, ok, fail, runtime_error, undefined, take, ap, ◌≡◌,
  refl, arith, ◌>>=◌, if◌then◌else◌,
}
use wdb.Blob.{get_file_path}
use wdb.Blob.Store.{Storage, Environment, Call, ◌▹◌, lift, look_up, erase, put, with_files, check}
use wdb.Blob.Store.Initialize.{initialize_file_storage}

take-length : (s : Bytes) → take (length s) s ≡ s
take-length [] = refl
take-length (c ∷ s) = ap (λ t. c ∷ t) (take-length s)

module _ (env : Environment) where
  open env use {opens, tmp_file, accept, remove_error, rename_error, now}

  -- `fs::remove`
  abbrev pub remove : Bytes → Call {0} Unit
  remove path = lift (check (remove_error path)) ▹ λ _ s. (ok tt, with_files (erase path s.files) s)

  abbrev pub remove_existing : Bytes → Call Bool
  remove_existing path s = elim (look_up path s.files) [
    | none ↦ (ok false, s)
    | some file ↦ (remove path ▹ λ _. lift (ok true)) s
  ]

  -- The stream to the temporary file: it is truncated, written, and closed at the end of `writeFile`.
  abbrev pub write_temporary : Bytes → Call Bool
  write_temporary text s = (
    ok (accept text).1,
    with_files (put tmp_file (record { contents = (accept text).0; written = now }) s.files) s,
  )

  -- `fs::rename`
  abbrev pub rename : Bytes → Bytes → Call {0} Unit
  rename from path = lift (check (rename_error path)) ▹ λ _ s. elim (look_up from s.files) [
    | none ↦ (ok tt, s)
    | some file ↦ (ok tt, with_files (put path file (erase from s.files)) s)
  ]

  abbrev pub write_and_rename : Bytes → Bytes → Call {0} Unit
  write_and_rename file text = write_temporary text ▹ λ good.
      (if good
        then rename tmp_file file
        else lift (fail (runtime_error (codes "Error when writing file"))))

  -- `f.write(data, dataSize)` with what comes behind it: a stream refuses a negative size, and behind
  -- the end of the data there is nothing to read.
  abbrev pub write_sized : Bytes → Bytes → ℤ → Call {0} Unit
  write_sized file text (pos n) =
      if ltb (length text) n
      then lift (fail (undefined (codes "read behind the data")))
      else write_and_rename file (take n text)
  write_sized file text (negsuc n) =
      write_temporary [] ▹ λ _. lift (fail (runtime_error (codes "Error when writing file")))

  pub write_sized-length :
      (file text : Bytes) → write_sized file text (pos (length text)) ≡ write_and_rename file text
  write_sized-length file text =
      let fits : ltb (length text) (length text) ≡ false = ground arith in
      rw (fits, take-length text) refl

  -- `writeFile`
  unfoldable pub write_file : (id : ℤ) (text : Bytes) (data_size : ℤ) → Call {0} Unit
  unfolding initialize_file_storage get_file_path
  write_file id text data_size = initialize_file_storage env ▹ λ _ s.
      (lift (get_file_path s.base id) ▹ λ file.
      remove_existing file ▹ λ _. write_sized file text data_size)
        s

  -- `dropFile`: the result is the warning.
  unfoldable pub drop_file : ℤ → Call Bytes
  unfolding initialize_file_storage get_file_path
  drop_file id = initialize_file_storage env ▹ λ _ s.
      (lift (get_file_path s.base id) ▹ λ file. remove_existing file ▹ λ existed. lift (
          ok (
            if existed
            then []
            else codes "File with id <" ++ show_ℤ id ++ codes "> does not exist")))
        s

  -- `getBStream`: the text behind the stream, where it could be opened.
  unfoldable pub get_bstream : ℤ → Storage → Outcome (Option Bytes)
  unfolding get_file_path
  get_bstream id s = get_file_path s.base id >>= λ path. elim (look_up path s.files) [
    | none ↦ fail (runtime_error (codes "File does not exist"))
    | some file ↦ ok (if opens path then some file.contents else none)
  ]

  -- `readFile` into an array of `read_size` characters.
  unfoldable pub read_file_of_size : ℤ → ℕ → Call Bytes
  unfolding initialize_file_storage get_bstream
  read_file_of_size id read_size = initialize_file_storage env ▹ λ _ s.
      lift
        (get_bstream id s >>= elim [
          | none ↦ fail (runtime_error (codes "Error when reading file"))
          | some text ↦
              if ltb (length text) read_size
              then fail (runtime_error (codes "File was too small"))
              else if ltb read_size (length text)
              then fail (runtime_error (codes "File was too big"))
              else ok text
        ])
        s

  -- `readFile` into a vector.
  unfoldable pub read_file : ℤ → Call Bytes
  unfolding initialize_file_storage get_bstream
  read_file id = initialize_file_storage env ▹ λ _ s.
      lift
        (get_bstream id s >>= elim [
          | none ↦ fail (runtime_error (codes "Unable to read file"))
          | some text ↦ ok text
        ])
        s

  -- `cacheFile`: what is read is discarded.
  unfoldable pub cache_file : ℤ → Call {0} Unit
  unfolding initialize_file_storage get_bstream
  cache_file id = initialize_file_storage env ▹ λ _ s. lift (get_bstream id s >>= λ _. ok tt) s

-- `readFloat_(s)` at the rest of a stream: the bits of the `float` of four bytes, the lowest first.
unfoldable pub read_float_ : Bytes → Outcome ℕ
read_float_ (a ∷ b ∷ c ∷ e ∷ rest) = ok (a + 256 * (b + 256 * (c + 256 * e)))
read_float_ _ = fail (runtime_error (codes "File was too small to read the given index"))

-- `readFloat_(s, position)`. The offset is unsigned, of 64 bits: that of a negative position is
-- negative again as the argument of `seekg`, which fails. `end_of_file` is caught and thrown with
-- the position.
unfoldable pub read_float_at : Bytes → ℤ → Outcome ℕ
unfolding read_float_
read_float_at text (pos n) = elim (read_float_ (drop (n * 4) text)) [
  | ok value ↦ ok value
  | fail _ ↦
      fail (runtime_error (codes "File index " ++ show_ℕ n ++ codes " is out of range for file."))
]
read_float_at text (negsuc n) = fail (runtime_error (codes "Error when reading file"))

module _ (env : Environment) where
  unfoldable pub read_float_from_file : ℤ → ℤ → Call ℕ
  unfolding initialize_file_storage get_bstream read_float_at
  read_float_from_file id position = initialize_file_storage env ▹ λ _ s.
      lift
        (get_bstream env id s >>= elim [
          | none ↦ fail (runtime_error (codes "Error when reading file"))
          | some text ↦ read_float_at text position
        ])
        s
