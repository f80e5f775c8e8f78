-- ===== src/Config/File/Lines.antt =====
-- src/common/configuration/WdbConfigFile.cpp: what a line of a file says.
use wdb.Base.{true, false, List, [], ◌∷◌, ◌++◌, append-nil, Bytes, codes, ok, ◌≡◌, refl, All}
use wdb.Admin.Words.Documents.{is_space}
use wdb.Admin.Words.RoundTrip.{IsWord, unwords, trimmed-unwords, unwords-ne-nil}
use wdb.Config.File.{
  FileBoost, Table, up_to, behind, extract_key, extract_value, is_loaded, parse_specification,
  parse,
}
use wdb.Config.File.Spaces.{
  starts_with_comma, FileDocuments, Lacks, IsPart, up_to-Lacks, behind-Lacks, squeezed-unwords,
  parts_are_words, equals-IsPart, tightened-unwords,
}

-- A line that gives a key a value: the words of the value have one blank between two of them, none
-- but the first begins with a comma, and a comment may follow.
pub record Setting : Type 0 where
  pub key : Bytes
  pub word : Bytes
  pub words : List Bytes
  pub comment : Bytes

abbrev pub value_of : Setting → Bytes
value_of s = unwords s.word s.words

abbrev pub specification_of : Setting → Bytes
specification_of s = unwords s.key ((61 ∷ []) ∷ s.word ∷ s.words)

abbrev pub line_of : Setting → Bytes
line_of s = specification_of s ++ s.comment

pub record IsSetting (s : Setting) : Type 0 where
  pub key_is_word : IsWord s.key
  pub key_is_loaded : is_loaded s.key ≡ true
  pub key_lacks : Lacks 61 s.key
  pub words_are_parts : All IsPart (s.word ∷ s.words)
  pub line_lacks : Lacks 35 (specification_of s)
  pub comment_begins : up_to 35 s.comment ≡ []

is_loaded-append : (s t : Bytes) → IsWord s → is_loaded s ≡ true → is_loaded (s ++ t) ≡ true
is_loaded-append [] t (n, h) k = cc
is_loaded-append (c ∷ s) t h k = k

module _ (boost : FileBoost) (documents : FileDocuments boost) (file_name : Bytes) where
  trim-unwords :
      (before after w : Bytes) (ws : List Bytes)
      → All (λ c. is_space c ≡ true) before
      → All (λ c. is_space c ≡ true) after
      → IsWord w
      → All IsWord ws
      → boost.trim (before ++ (unwords w ws ++ after)) ≡ unwords w ws
  trim-unwords before after w ws hb ha h hs = rw (
    documents.trims (before ++ (unwords w ws ++ after)),
    trimmed-unwords before after w ws hb ha h hs,
  )

  -- A line of a key, `=` and a value is tidy: the replacements and `trim` leave it alone.
  tidy-unwords :
      (w : Bytes) (ws : List Bytes)
      → IsWord w
      → All IsPart ws
      → boost.trim (boost.before_comma (boost.one_space (unwords w ws))) ≡ unwords w ws
  tidy-unwords w ws h hs =
      let kept = trim-unwords [] [] w ws tt tt h (parts_are_words ws hs) in
      rw
        (
          documents.spaces (unwords w ws),
          squeezed-unwords w ws h (parts_are_words ws hs) false,
          documents.commas (unwords w ws),
          tightened-unwords w ws h hs,
        )
        (rw (append-nil (unwords w ws)) at kept)

  extract_key-specification :
      (s : Setting) → IsSetting s → extract_key boost file_name (specification_of s) ≡ ok s.key
  unfolding extract_key up_to is_space
  extract_key-specification s h = rw (
    up_to-Lacks 61 s.key (32 ∷ (61 ∷ (32 ∷ value_of s))) h.key_lacks,
    trim-unwords [] (32 ∷ []) s.key [] tt (refl, tt) h.key_is_word tt,
    h.key_is_word.0,
  )

  extract_value-specification :
      (s : Setting)
      → IsSetting s
      → extract_value boost file_name (specification_of s) ≡ ok (value_of s)
  unfolding extract_value behind is_space
  extract_value-specification s h =
      let word = h.words_are_parts.0.0 in
      let kept =
        trim-unwords (32 ∷ []) [] s.word s.words (refl, tt) tt word
          (parts_are_words s.words h.words_are_parts.1) in
      let trims : boost.trim (32 ∷ value_of s) ≡ value_of s =
        rw (append-nil (value_of s)) at kept in
      rw (
        behind-Lacks 61 s.key (32 ∷ (61 ∷ (32 ∷ value_of s))) h.key_lacks,
        trims,
        unwords-ne-nil s.word s.words word,
      )

  parse_specification-setting :
      (s : Setting) (table : Table)
      → IsSetting s
      → parse_specification boost file_name (specification_of s) table
        ≡ ok ((s.key, value_of s) ∷ table)
  unfolding parse_specification
  parse_specification-setting s table h = rw (
    tidy-unwords s.key ((61 ∷ []) ∷ s.word ∷ s.words) h.key_is_word
        (equals-IsPart, h.words_are_parts),
    extract_key-specification s h,
    is_loaded-append s.key (32 ∷ (61 ∷ (32 ∷ value_of s))) h.key_is_word h.key_is_loaded,
    extract_value-specification s h,
  )

  pub parse-setting :
      (s : Setting) (table : Table)
      → IsSetting s
      → parse boost file_name (line_of s) table ≡ ok ((s.key, value_of s) ∷ table)
  unfolding parse
  parse-setting s table h =
      rw
        (
          up_to-Lacks 35 (specification_of s) s.comment h.line_lacks,
          h.comment_begins,
          append-nil (specification_of s),
          unwords-ne-nil s.key ((61 ∷ []) ∷ s.word ∷ s.words) h.key_is_word,
        )
        (parse_specification-setting s table h)

  -- The same line behind `! `.
  pub parse-marked :
      (s : Setting) (table : Table)
      → IsSetting s
      → starts_with_comma s.key ≡ false
      → parse boost file_name (codes "! " ++ line_of s) table
        ≡ ok ((codes "! " ++ s.key, codes "NULL") ∷ table)
  unfolding parse parse_specification extract_key up_to is_space
  parse-marked s table h k =
      let w = h.words_are_parts in
      rw (
        up_to-Lacks 35 (specification_of s) s.comment h.line_lacks,
        h.comment_begins,
        append-nil (specification_of s),
        tidy-unwords (33 ∷ []) (s.key ∷ (61 ∷ []) ∷ s.word ∷ s.words) (refl, (refl, tt))
            ((h.key_is_word, k), (equals-IsPart, w)),
        up_to-Lacks 61 s.key (32 ∷ (61 ∷ (32 ∷ value_of s))) h.key_lacks,
        trim-unwords [] (32 ∷ []) (33 ∷ []) (s.key ∷ []) tt (refl, tt) (refl, (refl, tt))
            (h.key_is_word, tt),
      )
