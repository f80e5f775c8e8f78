-- ===== src/Tests/Specs.antt =====
-- The specifications of src/callInterface/types, at concrete texts.
use wdb.Base.{◌≢◌, ℕ, [], refl, ◌≡◌, ◌↔◌, codes, bytes_eq, ok, pos, true}
use wdb.Admin.Words.Documents.{is_space}
use wdb.Config.File.Spaces.{squeezed}
use wdb.Spec.Normal.{c_string, normalize_wci_parameter}
use wdb.Spec.Normal.Steady.{normalize_wci_parameter-steady_iff}
use wdb.Spec.Wildcard.{instant, value_parameter_type}
use wdb.Base.{catch_as, take, bytes_eq, false}
use wdb.Spec.NamedInteger.{type_in, Enumeration, type_in-type_out}
use wdb.Spec.Wildcard.{is_pattern, PatternAt, is_pattern_iff, ParameterType}
use wdb.Spec.NamedInteger.{name, time_indeterminate_type_out}
use wdb.Base.{catch_as}

is_pattern_iff_example :
    (is_pattern (codes "air\\_t%") ≡ true) ↔ ((i : ℕ) × PatternAt (codes "air\\_t%") i)
is_pattern_iff_example = is_pattern_iff (codes "air\\_t%")

abbrev normal_form : ParameterType
normal_form = record { specification_ = codes "air_t"; is_pattern_ = true }

type_in-type_out_example : type_in Enumeration.time_indeterminate (codes "inside") ≡ ok (pos 2)
unfolding time_indeterminate_type_out catch_as name
type_in-type_out_example =
    type_in-type_out Enumeration.time_indeterminate (pos 2) (codes "inside") refl

normalized_air : normalize_wci_parameter (squeezed false) (codes "Instant Air") ≡ ok (codes "air")
unfolding normalize_wci_parameter value_parameter_type catch_as c_string squeezed is_space bytes_eq
normalized_air = refl

normalize_wci_parameter-steady_iff_example :
    (normalize_wci_parameter (squeezed false) (codes "air") ≡ ok (codes "air"))
    ↔ ((codes "air" ≢ []) × (take 8 (codes "air") ≢ instant))
normalize_wci_parameter-steady_iff_example =
    normalize_wci_parameter-steady_iff (squeezed false) (λ s. refl) (codes "Instant Air")
      (codes "air") normalized_air
