-- ===== src/Spec/Normal.antt =====
-- src/callInterface/types/wciValueParameter.cpp and wciLevelParameter.cpp, the SQL functions that
-- put a parameter into its normal form, and wciLocation.cpp. A text is copied into a C string.
pub mod Steady
use wdb.Base.{
  ℕ, Bool, List, [], ◌∷◌, Bytes, codes, Outcome, ok, ◌>>=◌, ◌==◌, if◌then◌else◌, catch_as, Failure,
  invalid_text_representation,
}
use wdb.Spec.Wildcard.{value_parameter_type, level_parameter_type}
use wdb.Spec.Place.{Grammar, parse_location, has_geometry}

-- The C string of a text ends at its first zero byte.
unfoldable pub c_string : Bytes → Bytes
c_string [] = []
c_string (c ∷ s) = let rest = c_string s in if c == 0 then [] else c ∷ rest

module _ (one_space : Bytes → Bytes) where
  -- `normalizeWciParameter`
  unfoldable pub normalize_wci_parameter : Bytes → Outcome Bytes
  normalize_wci_parameter param =
      catch_as invalid_text_representation
        (value_parameter_type one_space (c_string param) >>= λ pt. ok pt.specification_)

  -- `normalizeWciLevelParameter`
  unfoldable pub normalize_wci_level_parameter : Bytes → Outcome Bytes
  normalize_wci_level_parameter param =
      catch_as invalid_text_representation
        (level_parameter_type one_space (c_string param) >>= λ pt. ok pt.specification_)

-- `getWciLocation`, with the columns that `packWciLocation` makes a row of.
unfoldable pub get_wci_location : Grammar → Bytes → Outcome (Bytes × Bytes × Bool)
get_wci_location grammar location = catch_as invalid_text_representation (
    parse_location grammar (c_string location) >>= λ loc. ok (
      c_string loc.interpolation_,
      c_string (if has_geometry loc then loc.geometry_ else loc.place_name_),
      has_geometry loc,
    ))
