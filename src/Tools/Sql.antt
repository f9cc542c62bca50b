-- ===== src/Tools/Sql.antt =====
-- The MySQL tool, internal/ai/tools/mysql_crud.go. unicode.ToUpper, the database and the JSON of the
-- rows are parameters.
mod Reads
mod Tests
use on_call_agent.Base.{
  ℕ, Bool, true, false, ◌||◌, List, [], ◌∷◌, Option, none, some, if◌then◌else◌, map, Text, codes,
  is_empty, trim_space, fields, has_code, Result, ok, err, contains, nat_eq, list_eq,
}

pub data SqlError : Type 0 where
  input_required dsn_required write_denied sql_invalid query_failed rows_not_encoded : SqlError

-- The words with which a statement may begin.
abbrev pub read_only_words : List Text
read_only_words =
    codes "SELECT" ∷ codes "SHOW" ∷ codes "DESCRIBE" ∷ codes "DESC" ∷ codes "EXPLAIN" ∷ []

-- The switch on the first word.
unfoldable pub check_words : List Text → Result SqlError (Unit {0})
check_words [] = err sql_invalid
check_words (word ∷ rest) = if contains word read_only_words then ok tt else err write_denied

-- validateReadOnlySQL
unfoldable pub validate_read_only_sql : (ℕ → ℕ) → Text → Result SqlError (Unit {0})
validate_read_only_sql to_upper query =
    let trimmed = trim_space query in
    if is_empty trimmed || has_code b';' trimmed
    then err sql_invalid
    else check_words (fields (map to_upper trimmed))

-- A database that has been opened: a raw query answers with the encoded rows, or an error of the query
-- or of the encoding.
pub record Mysql (S : Type 0) : Type 0 where
  pub raw : S → Text → S × Result SqlError Text

-- The function of the tool; a nil input or database is `none`.
unfoldable pub mysql_crud :
    {S : Type 0} → (ℕ → ℕ) → Option (Mysql S) → S → Option Text → S × Result SqlError Text
mysql_crud to_upper db s none = (s, err input_required)
mysql_crud to_upper db s (some sql) = elim (validate_read_only_sql to_upper sql) [
  | err e ↦ (s, err e)
  | ok _ ↦ elim db [ none ↦ (s, err dsn_required) | some d ↦ d.raw s sql ]
]
