-- ===== src/Query/Location.antt =====
-- The SQL of `Location` in src/callInterface/types/location.cpp: what a location adds to a query
-- for values at points, and to one for grids.
pub mod Surround
use wdb.Base.{
  Bool, true, false, List, [], ◌∷◌, ◌++◌, Bytes, codes, is_nil, if◌then◌else◌, show_ℤ, Outcome, ok,
  fail, ◌>>=◌,
}
use wdb.Spec.Place.{
  Location, InterpolationType, exact, nearest, surround, bilinear, GeomType, geom_unknown,
  geom_point, geom_polygon, geom_mpolygon, has_geometry, has_place_name,
}
use wdb.Query.Builder.{Builder, empty, on_table, what, write_what, from, add_where, with}

-- `queryReturnGrid()`; the argument is the schema's name.
unfoldable query_return_grid : Bytes → Location → Bytes
query_return_grid schema l =
    if has_geometry l
    then elim l.interpolation_type_ [
      | exact ↦
          codes "( equals ( st_geomfromtext( '"
          ++ (l.geometry_ ++ codes "', 4030 ), v.placegeometry ) )")
      | _ ↦
          codes "st_dwithin( st_transform( st_geomfromtext( '"
          ++ (l.geometry_
              ++ codes
                  "', 4030), v.originalsrid ), st_transform( v.placegeometry, v.originalsrid ), 1 )")
    ]
    else codes "placeid = (SELECT placeid FROM "
      ++ (schema
          ++ (codes ".placename_v p, "
              ++ (schema
                  ++ (codes
                        ".getSessionData() s WHERE p.placenamespaceid = s.placenamespaceid AND placename = '"
                      ++ (l.place_name_ ++ codes "')")))))

unfoldable pub add_grid_table_query : Bytes → Location → Builder → Builder
unfolding query_return_grid
add_grid_table_query schema l b = add_where (query_return_grid schema l) b

-- The condition of `addToReturnExactFloatQuery` for a geometry, by its type.
unfoldable pub exact_geometry : GeomType → Bytes → Bytes
exact_geometry geom_unknown geometry = []
exact_geometry geom_point geometry =
    codes "equals( st_geomfromtext('" ++ (geometry ++ codes "', 4030 ), v.placegeometry )")
exact_geometry geom_polygon geometry =
    codes
      "st_dwithin( st_transform( v.placegeometry, v.originalsrid ), st_transform( st_geomfromtext( '"
    ++ (geometry ++ codes "', 4030), v.originalsrid ), 1 )")
exact_geometry geom_mpolygon geometry =
    codes
      "st_dwithin( st_transform( v.placegeometry, v.originalsrid ), st_transform( st_geomfromtext( '"
    ++ (geometry ++ codes "', 4030), v.originalsrid ), 1 )")

-- `subQuery` of `addToReturnExactFloatQuery`.
unfoldable pub named_geometries : Bytes → Bytes → Builder
named_geometries schema place_name =
    add_where (codes "placename = '" ++ (place_name ++ codes "'")) (
      add_where (codes "p.placenamespaceid = s.placenamespaceid") (
        from (schema ++ codes ".getSessionData() s") (
          from (schema ++ codes ".placedefinition_mv p") (
            what (codes "placenamevalidto") (
              what (codes "placenamevalidfrom")
                (what (codes "placegeometry AS geometry_for_name") empty))))))

unfoldable pub add_exact : Bytes → Location → Builder → Outcome Builder
add_exact schema l b =
    let b' =
      if has_geometry l
      then add_where (codes "(" ++ (exact_geometry l.geom_type_ l.geometry_ ++ codes ")")) b
      else b in
    let named = with (named_geometries schema l.place_name_) (codes "geometries") b' >>= λ c. ok (
      add_where (codes "referencetime < g.placenamevalidto") (
        add_where (codes "referencetime >= g.placenamevalidfrom") (
          add_where (codes "_ST_Intersects(g.geometry_for_name, v.placegeometry)") (
            add_where (codes "g.geometry_for_name && v.placegeometry")
              (from (codes "geometries g") c))))) in
    if has_place_name l then named else ok b'

-- `locationQuery` of `addToReturnSurroundFloatQuery`.
unfoldable pub wanted_location : Bytes → Builder
wanted_location place_name = add_where (codes "placename='" ++ (place_name ++ codes "'")) (
    add_where (codes "s.placenamespaceid=p.placenamespaceid") (
      what (codes "placenamevalidto") (
        what (codes "placenamevalidfrom") (
          what (codes "placegeometry") (
            from (codes "wci_int.getsessiondata() s")
              (on_table (codes "wci_int.placedefinition_mv p")))))))

-- `originalQuery`: a copy of the builder, with two more columns.
unfoldable pub original_query : Builder → Builder
original_query b = what (codes "placegeometry") (what (codes "placeid") b)

-- `addToReturnSurroundFloatQuery`: the statement so far becomes the WITH part of a new one. What
-- the code adds to the old builder before that goes with it, since the builder is then assigned a
-- new one.
unfoldable pub add_surround : Location → Builder → Outcome Builder
add_surround l b =
    let limit = show_ℤ l.interpolation_parameter_ in
    with (original_query b) (codes "floatvalue") empty >>= λ c.
    let c' = from (codes "floatvalue v") c in
    if has_geometry l
    then ok (
        add_where
          (codes
              "placeid = (SELECT placeid FROM floatvalue v ORDER BY v.placegeometry <-> st_geomfromtext('"
            ++ (l.geometry_ ++ (codes "', 4030) LIMIT " ++ (limit ++ codes ")"))))
          c')
    else with (wanted_location l.place_name_) (codes "wanted_location") c' >>= λ d. ok (
        add_where
          (codes
              "placeid in (SELECT placeid FROM floatvalue v ORDER BY v.placegeometry <-> l.placegeometry LIMIT "
            ++ (limit ++ codes ")"))
          (add_where (codes "v.referencetime < l.placenamevalidto") (
            add_where (codes "v.referencetime >= l.placenamevalidfrom")
              (from (codes "wanted_location l") d))))

unfoldable pub add_nearest : Location → Builder → Outcome Builder
unfolding add_surround
add_nearest l b = add_surround l b

unfoldable add_bilinear : Builder → Builder
add_bilinear b = add_where (codes "FALSE") b

-- `addFloatTableQuery`; the case `Bilinear` runs on into the default.
unfoldable pub add_float_table_query : Bytes → Location → Builder → Outcome Builder
unfolding add_nearest add_bilinear
add_float_table_query schema l b = elim l.interpolation_type_ [
  | exact ↦ add_exact schema l b
  | nearest ↦ add_nearest l b
  | surround ↦ add_surround l b
  | bilinear ↦ ok (add_where (codes "FALSE") (add_bilinear b))
]
