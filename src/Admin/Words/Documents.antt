-- ===== src/Admin/Words/Documents.antt =====
-- What Boost documents of `trim` and `split` on spaces, for
-- src/admin/ui/cmdLine/adminCommandLineInterpreter.cpp.
use wdb.Base.{ℕ, leb, Bool, ◌&&◌, ◌||◌, List, [], ◌∷◌, Bytes, is_nil, ◌==◌, if◌then◌else◌, ◌≡◌}
use wdb.Admin.Words.{LineBoost}

-- `std::isspace` in the "C" locale.
unfoldable pub is_space : ℕ → Bool
is_space c = c == 32 || (leb 9 c && leb c 13)

-- The text without the spaces in front, and without those behind.
unfoldable pub trim_left : Bytes → Bytes
trim_left [] = []
trim_left (c ∷ s) = if is_space c then trim_left s else c ∷ s

unfoldable pub trim_right : Bytes → Bytes
trim_right [] = []
trim_right (c ∷ s) = let rest = trim_right s in if is_space c && is_nil rest then [] else c ∷ rest

unfoldable pub trimmed : Bytes → Bytes
trimmed s = trim_left (trim_right s)

abbrev pub add_to_first : ℕ → List Bytes → List Bytes
add_to_first c [] = (c ∷ []) ∷ []
add_to_first c (word ∷ words) = (c ∷ word) ∷ words

-- The parts between the spaces, with an empty one between two spaces that follow each other.
unfoldable pub parts : Bytes → List Bytes
parts [] = [] ∷ []
parts (c ∷ s) = let words = parts s in if is_space c then [] ∷ words else add_to_first c words

-- `trim` removes the spaces at both ends, and `split` gives the parts between two spaces.
pub record Documents (boost : LineBoost) : Type 0 where
  pub trims : (s : Bytes) → boost.trim s ≡ trimmed s
  pub splits : (s : Bytes) → boost.split s ≡ parts s
