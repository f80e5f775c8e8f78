-- ===== src/Query/Select.antt =====
-- The conditions on the parameter, level, data version and data provider: parameterQuery.cpp,
-- levelQuery.cpp and dataversionQuery.cpp of src/callInterface/core/wciRead/query, and
-- `addDataProviderQuery` of buildQuery.cpp there. An array of the call is a list, and `none` for a
-- null pointer.
pub mod Versions
pub mod Levels
use wdb.Base.{
  ℕ, zero, suc, ◌+◌, Bool, true, false, not, ◌&&◌, List, [], ◌∷◌, ◌++◌, Bytes, codes, bytes_eq,
  is_nil, if◌then◌else◌, Option, none, some, ℤ, pos, negsuc, show_ℕ, show_ℤ, ◌==◌, Outcome, ok,
  fail, logic_error, ◌>>=◌,
}
use wdb.Spec.Level.{LevelSpecification, level_specification}
use wdb.Query.Quote.{BoostString, quote, lquote, lower}
use wdb.Query.Externals.{Externals}
use wdb.Query.Builder.{Builder, empty, what, from, add_where, with}

module _ (boost : BoostString) where
  -- `prepParameter(parameter)`
  unfoldable pub prep_parameter : Bytes → Outcome Bytes
  prep_parameter parameter =
      if is_nil parameter
      then fail (logic_error (codes "empty parameters are not allowed"))
      else ok (lquote boost parameter)

  -- The loop of `addParameterQuery`, behind what stands in the stream.
  unfoldable pub parameter_alternatives : List Bytes → Bytes → Outcome Bytes
  parameter_alternatives [] q = ok q
  parameter_alternatives (p ∷ ps) q = prep_parameter p >>= λ s.
      parameter_alternatives ps (q ++ (codes " OR valueparametername LIKE " ++ s))

  unfoldable pub add_parameter_query : Option (List Bytes) → Builder → Outcome Builder
  unfolding prep_parameter parameter_alternatives
  add_parameter_query none b = ok b
  add_parameter_query (some []) b = ok (add_where (codes "FALSE") b)
  add_parameter_query (some (p ∷ ps)) b = prep_parameter p >>= λ s.
      parameter_alternatives ps (codes "(valueparametername LIKE " ++ s) >>= λ q.
      ok (add_where (q ++ codes ")") b)

  -- The names of the data providers, as alternatives.
  unfoldable provider_alternatives : List Bytes → Bytes
  provider_alternatives [] = []
  provider_alternatives (p ∷ ps) =
      codes " OR source.dataprovidername = "
      ++ (quote boost (lower boost p) ++ provider_alternatives ps)

-- The subquery of `addDataProviderQuery`, for a first name and more.
unfoldable pub provider_subquery : Externals → Bytes → List Bytes → Builder
unfolding provider_alternatives
provider_subquery x p ps =
    add_where (codes "source.dataprovidernamerightset >= d.dataprovidernamerightset") (
      add_where (codes "source.dataprovidernameleftset <= d.dataprovidernameleftset") (
        add_where
          (codes "(source.dataprovidername = "
            ++ (quote x.boost (lower x.boost p) ++ (provider_alternatives x.boost ps ++ codes ")")))
          (from (x.wci_schema ++ codes ".dataprovider_mv source") (
            from (x.wci_schema ++ codes ".dataprovider_mv d")
              (what (codes "d.dataproviderid AS id") empty)))))

unfoldable pub add_data_provider_query : Externals → Option (List Bytes) → Builder → Outcome Builder
add_data_provider_query x none b = ok b
add_data_provider_query x (some []) b = ok (add_where (codes "FALSE ") b)
add_data_provider_query x (some (p ∷ ps)) b =
    with (provider_subquery x p ps) (codes "dataprovider") b >>= λ b'.
    ok (add_where (codes "v.dataproviderid IN (dataprovider.id)") (from (codes "dataprovider") b'))

-- What `addLevelQuery` writes behind the parameter's name.
unfoldable pub level_condition : (ℕ → Bytes) → LevelSpecification → Bytes
level_condition show lvl =
    let is = bytes_eq lvl.indeterminate_ in
    if is (codes "exact")
    then codes " AND levelfrom = " ++ (show lvl.from_ ++ (codes " AND levelto = " ++ show lvl.to_))
    else if is (codes "inside")
    then codes " AND levelfrom >= "
      ++ (show lvl.from_ ++ (codes " AND levelto <= " ++ show lvl.to_))
    else if is (codes "below")
    then codes " AND levelfrom < " ++ show lvl.from_
    else if is (codes "above")
    then codes " AND levelto > " ++ show lvl.to_
    else if is (codes "any")
    then []
    else lvl.indeterminate_

unfoldable pub add_level_query : Externals → Option Bytes → Builder → Outcome Builder
add_level_query x none b = ok b
add_level_query x (some level_spec) b = level_specification x.level_boost level_spec >>= λ lvl. ok (
    add_where
      (codes "(levelparametername LIKE "
        ++ (lquote x.boost lvl.parameter_ ++ (level_condition x.show_float lvl ++ codes ")")))
      b)

-- `positiveVersion` and `negativeVersion`
unfoldable pub positive_versions : List ℤ → List ℕ
positive_versions [] = []
positive_versions (pos n ∷ vs) = n ∷ positive_versions vs
positive_versions (negsuc n ∷ vs) = positive_versions vs

unfoldable pub negative_versions : List ℤ → List ℤ
negative_versions [] = []
negative_versions (pos n ∷ vs) = negative_versions vs
negative_versions (negsuc n ∷ vs) = negsuc n ∷ negative_versions vs

-- `-` on an `int`. The negation of the least one overflows, which the compilers of the repository
-- leave as it is.
abbrev pub negated : ℤ → ℤ
negated (pos zero) = pos zero
negated (pos (suc n)) = negsuc n
negated (negsuc n) = if n == 2147483647 then negsuc n else pos (suc n)

abbrev pub positive_item : ℕ → Bytes
positive_item n = show_ℕ n

abbrev pub negative_item : ℤ → Bytes
negative_item v = codes "(maxdataversion +1 -" ++ (show_ℤ (negated v) ++ codes ")")

abbrev pub more_items : {A : Type 0} → (A → Bytes) → List A → Bytes
more_items item [] = []
more_items item (n ∷ ns) = codes ", " ++ (item n ++ more_items item ns)

-- One list of versions, if there are any.
abbrev version_list : {A : Type 0} → (A → Bytes) → List A → Bytes
version_list item [] = []
version_list item (n ∷ ns) =
    codes "dataversion IN (" ++ (item n ++ (more_items item ns ++ codes ") "))

-- The text that `addDataVersionQuery` writes.
unfoldable pub version_condition : List ℕ → List ℤ → Bytes
version_condition positive negative =
    codes "("
    ++ (version_list positive_item positive
        ++ ((if not (is_nil positive) && not (is_nil negative) then codes "OR " else [])
            ++ (version_list negative_item negative ++ codes ") ")))

unfoldable pub add_data_version_query : Option (List ℤ) → Builder → Builder
unfolding positive_versions negative_versions version_condition
add_data_version_query none b = b
add_data_version_query (some []) b = add_where (codes "FALSE") b
add_data_version_query (some (v ∷ vs)) b =
    add_where (version_condition (positive_versions (v ∷ vs)) (negative_versions (v ∷ vs))) b
