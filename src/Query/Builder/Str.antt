-- ===== src/Query/Builder/Str.antt =====
-- What `query::Builder::str` and `with` return, for every history of calls on a builder.
use wdb.Base.{
  List, [], ◌∷◌, ◌++◌, append_assoc, append-nil, ◌≡◌, ◌≢◌, refl, arith, Bytes, Outcome, ok, fail,
  ◌>>=◌, bind-eq-ok, invalid_query,
}
use wdb.Query.Builder.{
  Builder, str, statement, list_rest, with, list, alias_text, conjunction, what, from, add_where,
  order_by, group_by, on_table, write_where,
}
use mathlib.Core.List.{cons-ne-nil, concat-ne-nil}

-- A call of a method that returns the builder.
pub data Call : Type 0 where
  what_call from_call where_call order_by_call group_by_call : Bytes → Call
  with_call : Builder → Bytes → Call

unfoldable pub call : Call → Builder → Outcome Builder
call (what_call x) b = ok (what x b)
call (from_call x) b = ok (from x b)
call (where_call x) b = ok (add_where x b)
call (order_by_call x) b = ok (order_by x b)
call (group_by_call x) b = ok (group_by x b)
call (with_call statement alias) b = with statement alias b

unfoldable pub calls : List Call → Builder → Outcome Builder
calls [] b = ok b
calls (c ∷ cs) b = call c b >>= calls cs

-- `str` gives a text exactly when a table was named, and `InvalidQuery` otherwise.
pub str-eq-ok : (b : Builder) → b.from_ ≢ [] → str b ≡ ok (statement b)
unfolding str
str-eq-ok b h = ground arith

str-eq-fail : (b : Builder) → b.from_ ≡ [] → str b ≡ fail invalid_query
unfolding str
str-eq-fail b h = ground arith

call-from_ : (c : Call) (b b' : Builder) → call c b ≡ ok b' → b.from_ ≢ [] → b'.from_ ≢ []
unfolding call with
call-from_ (from_call x) b b' e h = ground (arith, concat-ne-nil x b.from_)
call-from_ _ b b' e h = ground arith

calls-from_ : (cs : List Call) (b b' : Builder) → calls cs b ≡ ok b' → b.from_ ≢ [] → b'.from_ ≢ []
unfolding calls
calls-from_ [] b b' e h = ground arith
calls-from_ (c ∷ cs) b b' e h =
    let (m, first, rest) = bind-eq-ok (call c b) (calls cs) e in
    calls-from_ cs m b' rest (call-from_ c b m first h)

-- A builder that starts with a table makes a statement after any calls that return.
str-calls :
    (table : Bytes) (cs : List Call) (b : Builder)
    → calls cs (on_table table) ≡ ok b
    → str b ≡ ok (statement b)
str-calls table cs b e = str-eq-ok b (calls-from_ cs (on_table table) b e (cons-ne-nil table []))

list_rest-append :
    (separator : Bytes) (xs ys : List Bytes)
    → list_rest separator (xs ++ ys) ≡ list_rest separator xs ++ list_rest separator ys
list_rest-append separator [] ys = refl
list_rest-append separator (x ∷ xs) ys = simp (list_rest-append separator xs, append_assoc)

-- `list` of items, where the last item was pushed after others.
list-concat :
    (separator : Bytes) (xs : List Bytes) (x : Bytes)
    → xs ≢ []
    → list separator (xs ++ x ∷ []) ≡ list separator xs ++ (separator ++ x)
list-concat separator [] x h = absurd (h refl)
list-concat separator (y ∷ ys) x h = simp (list_rest-append separator ys, append_assoc, append-nil)

-- A condition that is added to a builder with conditions is joined to them by AND, behind them.
write_where-add_where :
    (b : Builder) (clause : Bytes)
    → b.where_ ≢ []
    → write_where (add_where clause b) ≡ write_where b ++ (conjunction ++ clause)
unfolding write_where
write_where-add_where b clause h = list-concat conjunction b.where_ clause h

-- What `with` appends for a statement that has a table.
pub with-eq-ok :
    (st : Builder) (alias : Bytes) (b : Builder)
    → st.from_ ≢ []
    → with st alias b ≡ ok (record b { with_ = b.with_ ++ alias_text alias (statement st) ∷ [] })
unfolding with
with-eq-ok st alias b h = rw (str-eq-ok st h, with)
