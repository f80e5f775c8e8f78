-- ===== src/Spec/Place.antt =====
-- src/callInterface/types/location.{h,cpp}, as far as it reads a location; the SQL that it adds to
-- a query is in Query/Location. The grammar of boost::spirit is a parameter.
use wdb.Base.{
  Bool, not, [], ◌++◌, Bytes, codes, is_nil, to_lower, if◌then◌else◌, ℤ, pos, Outcome, ok, fail,
  logic_error,
}

-- src/callInterface/types/interpolationType.h
pub data InterpolationType : Type 0 where
  exact nearest surround bilinear : InterpolationType

pub data GeomType : Type 0 where
  geom_unknown geom_point geom_polygon geom_mpolygon : GeomType

pub record Location : Type 0 where
  pub interpolation_ : Bytes
  pub interpolation_type_ : InterpolationType
  pub interpolation_parameter_ : ℤ
  pub geometry_ : Bytes
  pub place_name_ : Bytes
  pub geom_type_ : GeomType

-- `parse(location, grammar, space_p)` with the actions of `parseWithSpirit_`: whether the whole
-- text matched, and the members as the actions leave them.
abbrev pub Grammar : Type 0
Grammar = Bytes → Location → Bool × Location

-- The members as the constructor initialises them.
abbrev unparsed : Location
unparsed = record {
  interpolation_ = [];
  interpolation_type_ = exact;
  interpolation_parameter_ = pos 1;
  geometry_ = [];
  place_name_ = [];
  geom_type_ = geom_unknown;
}

unfoldable parse_with_spirit : Grammar → Bytes → Location → Outcome Location
parse_with_spirit grammar location l =
    let (full_match, m) = grammar location l in
    if full_match
    then ok (record m {
      interpolation_ = to_lower m.interpolation_;
      place_name_ = to_lower m.place_name_;
    })
    else fail (logic_error (codes "Invalid place specification: " ++ location))

-- `Location(location)`
unfoldable pub parse_location : Grammar → Bytes → Outcome Location
unfolding parse_with_spirit
parse_location grammar location = parse_with_spirit grammar location unparsed

abbrev pub has_geometry : Location → Bool
has_geometry l = not (is_nil l.geometry_)

abbrev pub has_place_name : Location → Bool
has_place_name l = not (is_nil l.place_name_)
