-- ===== src/Query/Quote.antt =====
-- src/callInterface/core/wciRead/query/util.cpp: quoted SQL literals. Boost's string algorithms are
-- a parameter, with what their documentation promises for a search text of one character.
pub mod Literal
use wdb.Base.{ℕ, List, [], ◌∷◌, ◌++◌, ◌≡◌, refl, Bytes, codes, to_lower, ◌==◌, if◌then◌else◌}

-- boost/algorithm/string.hpp
pub record BoostString : Type 0 where
  pub replace_all_copy : Bytes → Bytes → Bytes → Bytes
  pub to_lower_copy : Bytes → Bytes
  pub replace_all-nil : (c : ℕ) (by : Bytes) → replace_all_copy [] (c ∷ []) by ≡ []
  pub replace_all-cons :
      (x : ℕ) (s : Bytes) (c : ℕ) (by : Bytes)
      → replace_all_copy (x ∷ s) (c ∷ []) by
        ≡ (if x == c then by else x ∷ []) ++ replace_all_copy s (c ∷ []) by
  pub to_lower_copy-to_lower : (s : Bytes) → to_lower_copy s ≡ to_lower s

abbrev pub apostrophe : ℕ
apostrophe = b'\''

module _ (boost : BoostString) where
  unfoldable pub quote : Bytes → Bytes
  quote raw =
      (apostrophe ∷ [])
      ++ (boost.replace_all_copy raw (apostrophe ∷ []) (apostrophe ∷ apostrophe ∷ [])
          ++ (apostrophe ∷ []))

  unfoldable pub lquote : Bytes → Bytes
  lquote raw = boost.to_lower_copy (
      (apostrophe ∷ [])
      ++ (boost.replace_all_copy raw (apostrophe ∷ []) (apostrophe ∷ apostrophe ∷ [])
          ++ (apostrophe ∷ [])))

  unfoldable pub lower : Bytes → Bytes
  lower raw = boost.to_lower_copy raw
