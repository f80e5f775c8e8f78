-- ===== src/Query/Collection.antt =====
-- The parameters of a call, src/callInterface/core/wciRead/query/WciReadParameterCollection.c, and
-- the call as SQL text, WciReadParameterCollection_string.cpp there.
pub mod Arrays
use wdb.Base.{
  ℕ, ◌==◌, Bool, true, false, not, List, [], ◌∷◌, ◌++◌, Bytes, codes, if◌then◌else◌, Option, none,
  some, ℤ, show_ℤ, Outcome, ok, fail, ereport, data_exception, ◌>>=◌,
}
use wdb.Query.Quote.{BoostString, quote}
use wdb.Query.Build.{WciReadParameterCollection}

-- A PostgreSQL array: the number of dimensions, and the elements, `none` for NULL.
pub record ArrayType (A : Type 0) : Type 0 where
  pub ndim : ℕ
  pub elements : List (Option A)

module _ {A : Type 0} where
  -- The loop over the elements.
  unfoldable pub array_elements : List (Option A) → Outcome (List A)
  array_elements [] = ok []
  array_elements (none ∷ es) = fail (ereport data_exception (codes "NULL value in array"))
  array_elements (some a ∷ es) = array_elements es >>= λ rest. ok (a ∷ rest)

  -- `stringArrayFromDatum` and `intArrayFromDatum`, which differ in the type of the elements.
  unfoldable pub array_from_datum : Option (ArrayType A) → Outcome (Option (List A))
  unfolding array_elements
  array_from_datum none = ok none
  array_from_datum (some array) =
      if not (array.ndim == 1)
      then fail (ereport data_exception (codes "Invalid number of dimensions in array"))
      else array_elements array.elements >>= λ es. ok (some es)

unfoldable pub string_array_from_datum : Option (ArrayType Bytes) → Outcome (Option (List Bytes))
unfolding array_from_datum
string_array_from_datum d = array_from_datum d

unfoldable pub int_array_from_datum : Option (ArrayType ℤ) → Outcome (Option (List ℤ))
unfolding array_from_datum
int_array_from_datum d = array_from_datum d

-- The arguments of wci.read and the browse functions.
pub record Arguments : Type 0 where
  pub data_provider : Option (ArrayType Bytes)
  pub location : Option Bytes
  pub reference_time : Option Bytes
  pub valid_time : Option Bytes
  pub parameter : Option (ArrayType Bytes)
  pub level : Option Bytes
  pub data_version : Option (ArrayType ℤ)

-- `parseReadParameters`
unfoldable pub parse_read_parameters : Arguments → Outcome WciReadParameterCollection
parse_read_parameters a = string_array_from_datum a.data_provider >>= λ data_provider.
    string_array_from_datum a.parameter >>= λ parameter.
    int_array_from_datum a.data_version >>= λ data_version. ok (record {
      data_provider = data_provider;
      location = a.location;
      reference_time = a.reference_time;
      valid_time = a.valid_time;
      parameter = parameter;
      level = a.level;
      data_version = data_version;
    })

module _ (boost : BoostString) where
  abbrev more_strings : List Bytes → Bytes
  more_strings [] = []
  more_strings (s ∷ ss) = codes ", " ++ (quote boost s ++ more_strings ss)

  unfoldable pub string_from_string_array : Option (List Bytes) → Bytes
  string_from_string_array none = codes "NULL"
  string_from_string_array (some []) = codes "ARRAY[]"
  string_from_string_array (some (s ∷ ss)) =
      codes "ARRAY[" ++ (quote boost s ++ (more_strings ss ++ codes "]"))

  unfoldable string_from_string : Option Bytes → Bytes
  string_from_string none = codes "NULL"
  string_from_string (some s) = quote boost s

abbrev more_ints : List ℤ → Bytes
more_ints [] = []
more_ints (v ∷ vs) = codes ", " ++ (show_ℤ v ++ more_ints vs)

unfoldable string_from_int_array : Option (List ℤ) → Bytes
string_from_int_array none = codes "NULL"
string_from_int_array (some []) = codes "ARRAY[]"
string_from_int_array (some (v ∷ vs)) = codes "ARRAY[" ++ (show_ℤ v ++ (more_ints vs ++ codes "]"))

unfoldable string_from_collection : BoostString → Option WciReadParameterCollection → Bytes
string_from_collection boost none = codes "NULL"
string_from_collection boost (some c) =
    codes "wci.read("
    ++ (string_from_string_array boost c.data_provider
        ++ (codes ", "
            ++ (string_from_string boost c.location
                ++ (codes ", "
                    ++ (string_from_string boost c.reference_time
                        ++ (codes ", "
                            ++ (string_from_string boost c.valid_time
                                ++ (codes ", "
                                    ++ (string_from_string_array boost c.parameter
                                        ++ (codes ", "
                                            ++ (string_from_string boost c.level
                                                ++ (codes ", "
                                                    ++ (string_from_int_array c.data_version
                                                        ++ codes
                                                            ", NULL::wci.returnfloat)")))))))))))))
