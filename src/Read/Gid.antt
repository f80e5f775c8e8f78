-- ===== src/Read/Gid.antt =====
-- All calls of `wciReadGid` (src/callInterface/core/wciRead/wciReadGid.c) for one statement.
use wdb.Base.{
  ℕ, zero, suc, ◌+◌, List, [], ◌∷◌, ◌++◌, map, length, drop-next, drop-get, drop-get-some, Option,
  none, some, ok, bind-eq-ok, ◌≡◌, refl, arith, ap, ◌∙◌, get_elem?,
}
use wdb.Query.Collection.{Arguments, parse_read_parameters}
use wdb.Query.Build.{build_query, grid_table, output_gid}
use wdb.Read.Store.{HeapTuple, ReadStore}
use wdb.Read.Rows.{current_tuples}
use wdb.Read.Calls.{Server, what_gid, run_wci_read_gid_base_query, wci_read_gid}

-- The answers of the first `n` calls.
unfoldable pub gid_answers : Server → ℕ → ReadStore → List (Option HeapTuple)
gid_answers v zero s = []
gid_answers v (suc n) s = let (tuple, s') = wci_read_gid v s in tuple ∷ gid_answers v n s'

gid_answers-step :
    (v : Server) (n : ℕ) (s s' : ReadStore) (tuple : Option HeapTuple)
    → wci_read_gid v s ≡ (tuple, s')
    → gid_answers v (suc n) s ≡ tuple ∷ gid_answers v n s'
unfolding gid_answers
gid_answers-step v n s s' tuple call = rw (call, gid_answers) refl

wci_read_gid-tuple :
    (v : Server) (t : HeapTuple) (s : ReadStore)
    → get_elem? s.tuples s.current_tuple_index ≡ some t
    → wci_read_gid v s ≡ (some t, record s { current_tuple_index = suc s.current_tuple_index })
unfolding wci_read_gid
wci_read_gid-tuple v t s here =
    let next : s.current_tuple_index + 1 ≡ suc s.current_tuple_index = omega arith in
    rw (here, wci_read_gid) (rw next refl)

gid_answers-current :
    (v : Server) (ts : List HeapTuple) (s : ReadStore)
    → current_tuples s ≡ ts
    → gid_answers v (suc (length ts)) s ≡ map some ts ++ none ∷ []
unfolding gid_answers wci_read_gid
gid_answers-current v [] s here =
    rw (drop-get s.tuples s.current_tuple_index here, wci_read_gid) refl
gid_answers-current v (t ∷ ts) s here =
    let later = drop-next s.tuples s.current_tuple_index here in
    let s' : ReadStore = record s { current_tuple_index = suc s.current_tuple_index } in
    gid_answers-step v (suc (length ts)) s s' (some t)
      (wci_read_gid-tuple v t s (drop-get-some s.tuples s.current_tuple_index here))
    ∙ ap (λ r. some t ∷ r) (gid_answers-current v ts s' later)

base_query-fresh :
    (v : Server) (a : Arguments) (s s' : ReadStore)
    → run_wci_read_gid_base_query v a s ≡ ok s'
    → current_tuples s' ≡ s'.tuples
unfolding run_wci_read_gid_base_query
base_query-fresh v a s s' h =
    let (p, _, h1) = bind-eq-ok (parse_read_parameters a) _ h in
    let (query, _, h2) =
      bind-eq-ok (build_query v.externals (some p) grid_table output_gid what_gid none none) _ h1 in
    let (tuples, _, h3) = bind-eq-ok (v.execute query) _ h2 in
    let first : s'.current_tuple_index ≡ 0 = cc in rw first refl

-- If the first call's query succeeds, whatever the store held before, calling wciReadGid again and
-- again returns each tuple of the result once, in order, and then says that it is done, after one
-- call more than there are tuples.
pub gid_answers-tuples :
    (v : Server) (a : Arguments) (s s' : ReadStore)
    → run_wci_read_gid_base_query v a s ≡ ok s'
    → gid_answers v (suc (length s'.tuples)) s' ≡ map some s'.tuples ++ none ∷ []
gid_answers-tuples v a s s' h = gid_answers-current v s'.tuples s' (base_query-fresh v a s s' h)
