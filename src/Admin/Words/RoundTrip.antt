-- ===== src/Admin/Words/RoundTrip.antt =====
-- src/admin/ui/cmdLine/adminCommandLineInterpreter.cpp: the words that `readLine` makes of a line.
use wdb.Base.{
  Bool, true, false, ◌&&◌, List, [], ◌∷◌, ◌++◌, append_assoc, append-nil, Bytes, bytes_eq, is_nil,
  some, ◌≡◌, refl, sym, if◌then◌else◌, All,
}
use wdb.Admin.Words.{stifled, LineBoost, read_line}
use wdb.Admin.Words.Documents.{is_space, trim_left, trim_right, trimmed, parts, Documents}

-- A text of spaces, a text without a space, and a word.
abbrev pub IsBlank : Bytes → Type 0
IsBlank = All (λ c. is_space c ≡ true)

abbrev pub IsSolid : Bytes → Type 0
IsSolid = All (λ c. is_space c ≡ false)

abbrev pub IsWord : Bytes → Type 0
IsWord s = (is_nil s ≡ false) × IsSolid s

-- The words with one space between two of them.
abbrev pub unwords : Bytes → List Bytes → Bytes
unwords word [] = word
unwords word (next ∷ words) = word ++ (32 ∷ unwords next words)

is_nil-append : (xs ys : Bytes) → is_nil ys ≡ false → is_nil (xs ++ ys) ≡ false
is_nil-append [] ys h = h
is_nil-append (x ∷ xs) ys h = refl

trim_right-blank : (s : Bytes) → IsBlank s → trim_right s ≡ []
unfolding trim_right
trim_right-blank [] h = refl
trim_right-blank (c ∷ s) (hc, h) = rw (trim_right-blank s h, hc)

trim_right-append_blank : (s t : Bytes) → IsBlank t → trim_right (s ++ t) ≡ trim_right s
unfolding trim_right
trim_right-append_blank [] t h = trim_right-blank t h
trim_right-append_blank (c ∷ s) t h = rw (trim_right-append_blank s t h)

and-false : (b : Bool) → (b && false) ≡ false
and-false true = refl
and-false false = refl

trim_right-append :
    (s t : Bytes) → is_nil t ≡ false → trim_right t ≡ t → trim_right (s ++ t) ≡ s ++ t
unfolding trim_right
trim_right-append [] t n h = h
trim_right-append (c ∷ s) t n h =
    rw (trim_right-append s t n h, is_nil-append s t n, and-false (is_space c))

trim_right-solid : (s : Bytes) → IsSolid s → trim_right s ≡ s
unfolding trim_right
trim_right-solid [] h = refl
trim_right-solid (c ∷ s) (hc, h) = rw (trim_right-solid s h, hc)

pub unwords-ne-nil :
    (word : Bytes) (words : List Bytes) → IsWord word → is_nil (unwords word words) ≡ false
unwords-ne-nil word [] h = h.0
unwords-ne-nil [] (next ∷ words) h = refl
unwords-ne-nil (c ∷ word) (next ∷ words) h = refl

trim_right-unwords :
    (word : Bytes) (words : List Bytes)
    → IsWord word
    → All IsWord words
    → trim_right (unwords word words) ≡ unwords word words
unfolding is_space
trim_right-unwords word [] h hs = trim_right-solid word h.1
trim_right-unwords word (next ∷ words) h (hn, hs) =
    trim_right-append word (32 ∷ unwords next words) refl (
      trim_right-append (32 ∷ []) (unwords next words) (unwords-ne-nil next words hn)
        (trim_right-unwords next words hn hs))

trim_left-append_blank : (s t : Bytes) → IsBlank s → trim_left (s ++ t) ≡ trim_left t
unfolding trim_left
trim_left-append_blank [] t h = refl
trim_left-append_blank (c ∷ s) t (hc, h) = rw (hc, trim_left-append_blank s t h)

trim_left-word : (s t : Bytes) → IsWord s → trim_left (s ++ t) ≡ s ++ t
unfolding trim_left
trim_left-word [] t h = cc
trim_left-word (c ∷ s) t (n, (hc, h)) = rw hc

unwords-append :
    (word : Bytes) (words : List Bytes) → (t : Bytes) × (unwords word words ≡ word ++ t)
unwords-append word [] = ([], sym (append-nil word))
unwords-append word (next ∷ words) = (32 ∷ unwords next words, refl)

pub trimmed-unwords :
    (before after word : Bytes) (words : List Bytes)
    → IsBlank before
    → IsBlank after
    → IsWord word
    → All IsWord words
    → trimmed (before ++ (unwords word words ++ after)) ≡ unwords word words
unfolding trimmed
trimmed-unwords before after word words hb ha h hs =
    let (t, e) = unwords-append word words in
    rw
      (
        sym (append_assoc before (unwords word words) after),
        trim_right-append_blank (before ++ unwords word words) after ha,
        trim_right-append before (unwords word words) (unwords-ne-nil word words h)
            (trim_right-unwords word words h hs),
        trim_left-append_blank before (unwords word words) hb,
        e,
      )
      (trim_left-word word t h)

parts-solid : (s : Bytes) → IsSolid s → parts s ≡ s ∷ []
unfolding parts
parts-solid [] h = refl
parts-solid (c ∷ s) (hc, h) = rw (hc, parts-solid s h)

parts-append_space : (s t : Bytes) → IsSolid s → parts (s ++ (32 ∷ t)) ≡ s ∷ parts t
unfolding parts is_space
parts-append_space [] t h = refl
parts-append_space (c ∷ s) t (hc, h) = rw (hc, parts-append_space s t h)

parts-unwords :
    (word : Bytes) (words : List Bytes)
    → IsWord word
    → All IsWord words
    → parts (unwords word words) ≡ word ∷ words
parts-unwords word [] h hs = parts-solid word h.1
parts-unwords word (next ∷ words) h (hn, hs) =
    rw (parts-append_space word (unwords next words) h.1, parts-unwords next words hn hs)

-- A line of words with one space between two of them, and any spaces around them, is read as these
-- words, which become the last command. The line is added to the history as it was typed, which
-- keeps its last 100 lines, unless the last command was the same; the lines after it are left to
-- be read.
pub read_line-unwords :
    (boost : LineBoost)
    → Documents boost
    → (before after word : Bytes) (words : List Bytes)
    → (lines : List Bytes) (last : Bytes) (history : List Bytes) → IsBlank before
    → IsBlank after
    → IsWord word
    → All IsWord words
    → read_line boost (record {
      lines = (before ++ (unwords word words ++ after)) ∷ lines;
      last_command = last;
      history = history;
    })
      ≡ (
        some (word ∷ words),
        record {
          lines = lines;
          last_command = unwords word words;
          history =
              if bytes_eq last (unwords word words)
              then history
              else stifled (history ++ (before ++ (unwords word words ++ after)) ∷ []);
        },
      )
unfolding read_line
read_line-unwords boost documents before after word words lines last history hb ha h hs = rw (
  documents.trims (before ++ (unwords word words ++ after)),
  trimmed-unwords before after word words hb ha h hs,
  unwords-ne-nil word words h,
  documents.splits (unwords word words),
  parts-unwords word words h hs,
)
