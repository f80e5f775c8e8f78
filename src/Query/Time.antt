-- ===== src/Query/Time.antt =====
-- src/callInterface/core/wciRead/query/timeQuery.cpp: the conditions on the reference time and on
-- the valid time.
pub mod Operand
pub mod Meaning
use wdb.Base.{
  Bool, true, false, ◌||◌, List, [], ◌∷◌, ◌++◌, ◌≡◌, refl, Bytes, codes, bytes_eq, if◌then◌else◌,
  Option, none, some, Outcome, ok, fail, ereport, data_exception, ◌>>=◌,
}
use wdb.Spec.Time.{TimeSpecification, TimeRegex, time_specification, to, interval}
use wdb.Query.Builder.{Builder, add_where}

-- `timeTo` of `addReferenceTimeQuery`.
unfoldable pub reference_time_to : TimeSpecification → Bytes
unfolding to interval
reference_time_to ts =
    if ts.duration_instead_of_to_
    then ts.from_ ++ (codes "'::timestamp with time zone+'" ++ interval ts)
    else to ts

-- The text that `addReferenceTimeQuery` writes between "(" and ") ".
unfoldable pub reference_time_condition : TimeSpecification → Bytes
reference_time_condition ts =
    let time_from = ts.from_ in
    let time_to = reference_time_to ts in
    let is = bytes_eq ts.indeterminate_ in
    if is (codes "exact")
    then (if bytes_eq time_from time_to
        then codes "referencetime = '" ++ (time_from ++ codes "'")
        else codes "referencetime = '"
          ++ (time_from ++ (codes "' AND referencetime = '" ++ (time_to ++ codes "'"))))
    else if is (codes "inside")
    then codes "referencetime >= '"
      ++ (time_from ++ (codes "' AND referencetime <= '" ++ (time_to ++ codes "'")))
    else if is (codes "contains")
    then codes "referencetime = '"
      ++ (time_from ++ (codes "' AND referencetime = '" ++ (time_to ++ codes "'")))
    else if is (codes "before")
    then codes "referencetime < '" ++ (time_from ++ codes "'")
    else if is (codes "after")
    then codes "referencetime > '" ++ (time_to ++ codes "'")
    else if is (codes "any")
    then codes "TRUE"
    else ts.indeterminate_

unfoldable pub add_reference_time_query : TimeRegex → Option Bytes → Builder → Outcome Builder
add_reference_time_query regex none b = ok b
add_reference_time_query regex (some time_spec) b = time_specification regex time_spec >>= λ ts.
    ok (add_where (codes "(" ++ (reference_time_condition ts ++ codes ") ")) b)

unfoldable is_special_value : Bytes → Bool
is_special_value time = bytes_eq time (codes "referencetime") || bytes_eq time (codes "NULL")

-- `quote` of this file, which leaves the special values bare.
unfoldable pub quote_time : Bytes → Bytes
unfolding is_special_value
quote_time valid_time =
    if is_special_value valid_time then valid_time else codes "'" ++ (valid_time ++ codes "'")

-- `timeTo` of `addValidTimeQuery`.
unfoldable pub valid_time_to : TimeSpecification → Bytes
unfolding to interval
valid_time_to ts =
    if ts.duration_instead_of_to_
    then quote_time ts.from_ ++ (codes "::timestamp with time zone+'" ++ (interval ts ++ codes "'"))
    else quote_time (to ts)

-- The text that `addValidTimeQuery` writes between the parentheses.
unfoldable pub valid_time_condition : TimeSpecification → Outcome Bytes
valid_time_condition ts =
    let time_from = quote_time ts.from_ in
    let time_to = valid_time_to ts in
    let is = bytes_eq ts.indeterminate_ in
    if is (codes "exact")
    then ok (codes "validtimefrom = " ++ (time_from ++ (codes " AND validtimeto = " ++ time_to)))
    else if is (codes "inside")
    then ok (codes "validtimefrom >= " ++ (time_from ++ (codes " AND validtimeto <= " ++ time_to)))
    else if is (codes "contains")
    then ok (codes "validtimefrom <= " ++ (time_from ++ (codes " AND validtimeto >= " ++ time_to)))
    else if is (codes "before")
    then ok (codes "validtimefrom < " ++ time_from)
    else if is (codes "after")
    then ok (codes "validtimeto > " ++ time_to)
    else if is (codes "any")
    then ok (codes "TRUE")
    else fail (ereport data_exception (codes "Invalid time indeterminate code"))

unfoldable pub add_valid_time_query : TimeRegex → Option Bytes → Builder → Outcome Builder
add_valid_time_query regex none b = ok b
add_valid_time_query regex (some time_spec) b = time_specification regex time_spec >>= λ ts.
    valid_time_condition ts >>= λ q. ok (add_where (codes "(" ++ (q ++ codes ")")) b)
