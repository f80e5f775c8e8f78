-- ===== src/Query/Plan.antt =====
-- src/callInterface/core/wciRead/query/plan.c: the cache of prepared plans. GLib's hash table with
-- string keys is a list of pairs with distinct keys; `SPI_prepare` and `SPI_saveplan` are a
-- parameter: the plan, or the error that PostgreSQL raises, which ends the call before the table has
-- a new entry. The table stays from call to call.
use wdb.Base.{
  ℕ, ◌≤◌, leb, Bool-cases, inl, inr, List, [], ◌∷◌, ◌≡◌, refl, arith, Bytes, bytes_eq, bytes_eq_iff,
  length, if◌then◌else◌, Option, none, some, Option-cases, All, Outcome, ok, fail, Outcome-cases,
  sym,
}

abbrev pub max_cached_plan_size : ℕ
max_cached_plan_size = 32

module _ {Plan : Type 0} where
  -- `g_hash_table_lookup(planList, query)`
  unfoldable pub lookup : Bytes → List (Bytes × Plan) → Option Plan
  lookup query [] = none
  lookup query ((key, plan) ∷ plans) = if bytes_eq key query then some plan else lookup query plans

  -- `clearSpiPlanCache()`: every key and plan is freed, and the table is emptied.
  unfoldable pub clear_spi_plan_cache : List (Bytes × Plan) → List (Bytes × Plan)
  clear_spi_plan_cache plans = []

  -- `getSpiPlan(query)`: the plan and the table behind the call. A new key is inserted only after
  -- it was looked up in vain, so no key stands twice.
  unfoldable pub get_spi_plan :
      (Bytes → Outcome Plan) → Bytes → List (Bytes × Plan) → Outcome Plan × List (Bytes × Plan)
  unfolding lookup clear_spi_plan_cache
  get_spi_plan prepare query plans = elim (lookup query plans) [
    | some plan ↦ (ok plan, plans)
    | none ↦
        let kept =
          if leb max_cached_plan_size (length plans) then clear_spi_plan_cache plans else plans in
        elim (prepare query) [ ok plan ↦ (ok plan, (query, plan) ∷ kept) | fail e ↦ (fail e, kept) ]
  ]

-- A history of calls: `some query` for `getSpiPlan`, `none` for `clearSpiPlanCache`; the plans that
-- were returned, or the errors, and the table behind them.
module _ {Plan : Type 0} (prepare : Bytes → Outcome Plan) where
  unfoldable pub serve :
      List (Option Bytes) → List (Bytes × Plan) → List (Outcome Plan) × List (Bytes × Plan)
  serve [] plans = ([], plans)
  serve (none ∷ calls) plans = serve calls (clear_spi_plan_cache plans)
  serve (some query ∷ calls) plans =
      let (plan, plans') = get_spi_plan prepare query plans in
      let (rest, last) = serve calls plans' in (plan ∷ rest, last)

  -- The plans that preparing each query anew would give.
  abbrev pub prepared : List (Option Bytes) → List (Outcome Plan)
  prepared [] = []
  prepared (none ∷ calls) = prepared calls
  prepared (some query ∷ calls) = prepare query ∷ prepared calls

  abbrev Sound : List (Bytes × Plan) → Type 0
  Sound = All (λ p. ok p.1 ≡ prepare p.0)

  lookup-Sound :
      (query : Bytes) (plans : List (Bytes × Plan)) (plan : Plan)
      → Sound plans
      → lookup query plans ≡ some plan
      → ok plan ≡ prepare query
  unfolding lookup
  lookup-Sound query [] plan h e = cc
  lookup-Sound query ((key, p) ∷ plans) plan h e =
      ground (arith, bytes_eq_iff key query, lookup-Sound query plans plan h.1)

  get_spi_plan_lem :
      (query : Bytes) (plans : List (Bytes × Plan))
      → Sound plans
      → length plans ≤ max_cached_plan_size
      → ((get_spi_plan prepare query plans).0 ≡ prepare query)
        × Sound (get_spi_plan prepare query plans).1
        × (length (get_spi_plan prepare query plans).1 ≤ max_cached_plan_size)
  unfolding get_spi_plan clear_spi_plan_cache
  get_spi_plan_lem query plans h b = elim (Option-cases (lookup query plans)) [
    | inl e ↦
        rw (e, get_spi_plan)
          (elim (Outcome-cases (prepare query)) [
            | inl (plan, p) ↦ elim (Bool-cases (leb max_cached_plan_size (length plans))) [
              | inl full ↦ rw (p, full) (refl, (sym p, tt), omega arith)
              | inr room ↦ rw (p, room) (refl, (sym p, h), ground arith)
            ]
            | inr (f, p) ↦ elim (Bool-cases (leb max_cached_plan_size (length plans))) [
              | inl full ↦ rw (p, full) (refl, tt, omega arith)
              | inr room ↦ rw (p, room) (refl, h, b)
            ]
          ])
    | inr (plan, e) ↦ rw (e, get_spi_plan) (lookup-Sound query plans plan h e, h, b)
  ]

  serve_lem :
      (calls : List (Option Bytes)) (plans : List (Bytes × Plan))
      → Sound plans
      → length plans ≤ max_cached_plan_size
      → ((serve calls plans).0 ≡ prepared calls)
        × (length (serve calls plans).1 ≤ max_cached_plan_size)
  unfolding serve clear_spi_plan_cache
  serve_lem [] plans h b = (refl, b)
  serve_lem (none ∷ calls) plans h b = serve_lem calls [] tt (omega arith)
  serve_lem (some query ∷ calls) plans h b =
      let (plan, sound, bound) = get_spi_plan_lem query plans h b in
      let (rest, last) = serve_lem calls (get_spi_plan prepare query plans).1 sound bound in
      (rw (plan, rest), last)

-- Over any history of lookups and clearings, from an empty cache, each lookup returns the plan or the
-- error that preparing its query would give, and the cache never holds more than 32 plans.
pub serve-prepared :
    {Plan : Type 0} (prepare : Bytes → Outcome Plan) (calls : List (Option Bytes))
    → ((serve prepare calls []).0 ≡ prepared prepare calls)
      × (length (serve prepare calls []).1 ≤ max_cached_plan_size)
serve-prepared prepare calls = serve_lem prepare calls [] tt (omega arith)
