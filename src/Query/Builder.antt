-- ===== src/Query/Builder.antt =====
-- `query::Builder` of src/callInterface/core/Builder.{h,cpp}: a SELECT statement under
-- construction. Each list is the vector member of that name; the methods that return
-- `Builder &` return the changed builder.
pub mod Str
use wdb.Base.{
  List, [], ◌∷◌, ◌++◌, Bytes, codes, is_nil, if◌then◌else◌, Outcome, ok, fail, invalid_query,
}

pub record Builder : Type 0 where
  pub what_ : List Bytes
  pub from_ : List Bytes
  pub where_ : List Bytes
  pub with_ : List Bytes
  pub order_by_ : List Bytes
  pub group_by_ : List Bytes

-- `Builder()`
abbrev pub empty : Builder
empty = record { what_ = []; from_ = []; where_ = []; with_ = []; order_by_ = []; group_by_ = [] }

-- `Builder(const std::string & from)`
abbrev pub on_table : Bytes → Builder
on_table from = record empty { from_ = from ∷ [] }

-- The rest of `list`, behind its first item.
abbrev pub list_rest : Bytes → List Bytes → Bytes
list_rest separator [] = []
list_rest separator (x ∷ xs) = separator ++ (x ++ list_rest separator xs)

-- `list(s, data, separator)`: what it writes to the stream.
abbrev pub list : Bytes → List Bytes → Bytes
list separator [] = []
list separator (x ∷ xs) = x ++ list_rest separator xs

abbrev pub comma : Bytes
comma = codes ", "

abbrev pub conjunction : Bytes
conjunction = codes " AND "

-- The methods `what(s)` to `groupBy(s)`, which write one part of the statement.
unfoldable pub write_what : Builder → Bytes
write_what b = if is_nil b.what_ then codes "*" else list comma b.what_

unfoldable pub write_from : Builder → Bytes
write_from b = list comma b.from_

unfoldable pub write_where : Builder → Bytes
write_where b = list conjunction b.where_

unfoldable pub write_with : Builder → Bytes
write_with b = list comma b.with_

unfoldable pub write_order_by : Builder → Bytes
write_order_by b = list comma b.order_by_

unfoldable pub write_group_by : Builder → Bytes
write_group_by b = list comma b.group_by_

-- A part that `str` writes only if its vector is not empty: the keyword, then the items.
abbrev optional_part : List Bytes → Bytes → Bytes → Bytes
optional_part items keyword text = if is_nil items then [] else keyword ++ text

-- What `str()` writes to its stream, behind the test of `from_`.
unfoldable pub statement : Builder → Bytes
unfolding write_what write_from write_where write_with write_order_by write_group_by
statement b =
    optional_part b.with_ (codes "WITH ") (write_with b ++ codes " ")
    ++ (codes "SELECT "
        ++ (write_what b
            ++ (codes " FROM "
                ++ (write_from b
                    ++ (optional_part b.where_ (codes " WHERE ") (write_where b)
                        ++ (optional_part b.group_by_ (codes " GROUP BY ") (write_group_by b)
                            ++ optional_part b.order_by_ (codes " ORDER BY ")
                                (write_order_by b)))))))

-- `str()`
unfoldable pub str : Builder → Outcome Bytes
str b = if is_nil b.from_ then fail invalid_query else ok (statement b)

-- The methods that append an item.
abbrev pub what : Bytes → Builder → Builder
what item b = record b { what_ = b.what_ ++ item ∷ [] }

abbrev pub from : Bytes → Builder → Builder
from table b = record b { from_ = b.from_ ++ table ∷ [] }

abbrev pub add_where : Bytes → Builder → Builder
add_where clause b = record b { where_ = b.where_ ++ clause ∷ [] }

abbrev pub order_by : Bytes → Builder → Builder
order_by clause b = record b { order_by_ = b.order_by_ ++ clause ∷ [] }

abbrev pub group_by : Bytes → Builder → Builder
group_by clause b = record b { group_by_ = b.group_by_ ++ clause ∷ [] }

-- The item that `with` appends for a statement.
abbrev pub alias_text : Bytes → Bytes → Bytes
alias_text alias statement = alias ++ (codes " AS (" ++ (statement ++ codes ")"))

-- `with(statement, alias)`; the text of the statement is made at once, so its exception comes
-- from here.
unfoldable pub with : Builder → Bytes → Builder → Outcome Builder
unfolding str
with statement alias b = elim (str statement) [
  | ok text ↦ ok (record b { with_ = b.with_ ++ alias_text alias text ∷ [] })
  | fail e ↦ fail e
]

-- `debugPrint(s)`: what it writes to the stream.
abbrev print_items : List Bytes → Bytes
print_items [] = []
print_items (x ∷ xs) = codes "\t<" ++ (x ++ (codes ">\n" ++ print_items xs))

unfoldable debug_print : Builder → Bytes
debug_print b =
    codes "What:\n"
    ++ (print_items b.what_
        ++ (codes "FROM\n"
            ++ (print_items b.from_
                ++ (codes "WHERE\n"
                    ++ (print_items b.where_
                        ++ (codes "WITH\n"
                            ++ (print_items b.with_
                                ++ (codes "ORDER BY\n"
                                    ++ (print_items b.order_by_
                                        ++ (codes "GROUP BY\n" ++ print_items b.group_by_))))))))))
