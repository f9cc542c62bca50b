-- ===== src/Tools/Sql/Tests.antt =====
-- A database that keeps the queries it was given.
use on_call_agent.Base.{
  ◌≡◌, ◌≢◌, refl, sym, ◌∙◌, ℕ, List, [], ◌∷◌, some, Text, codes, ok, err, true, false, trim_space,
  fields, has_code, contains, nat_eq, list_eq, map,
}
use on_call_agent.Tools.Sql.{
  Mysql, mysql_crud, validate_read_only_sql, check_words, read_only_words, write_denied,
  sql_invalid,
}
use on_call_agent.Tools.Sql.Reads.{mysql_crud-reads}

abbrev log : Mysql (List Text)
log = record { raw = λ queries sql. (sql ∷ queries, ok (codes "[]")) }

abbrev same : ℕ → ℕ
same c = c

select_runs :
    (mysql_crud same (some log) [] (some (codes "SHOW TABLES"))).0 ≡ codes "SHOW TABLES" ∷ []
unfolding mysql_crud validate_read_only_sql trim_space has_code check_words fields
select_runs = refl

delete_denied :
    mysql_crud same (some log) [] (some (codes "DELETE FROM t")) ≡ ([], err write_denied)
unfolding mysql_crud validate_read_only_sql trim_space has_code check_words fields
delete_denied = refl

two_statements :
    mysql_crud same (some log) [] (some (codes "SHOW a; DROP TABLE t")) ≡ ([], err sql_invalid)
unfolding mysql_crud validate_read_only_sql trim_space has_code
two_statements = refl

-- A statement that begins with SELECT may still write a file on the database's host.
into_outfile :
    (mysql_crud same (some log) [] (some (codes "SELECT 1 INTO OUTFILE 'f'"))).0
    ≡ codes "SELECT 1 INTO OUTFILE 'f'" ∷ []
unfolding mysql_crud validate_read_only_sql trim_space has_code check_words fields
into_outfile = refl

show_runs : (mysql_crud same (some log) [] (some (codes "SHOW t"))).0 ≡ codes "SHOW t" ∷ []
unfolding mysql_crud validate_read_only_sql trim_space has_code check_words fields
show_runs = refl

nonempty : (x : Text) (xs : List Text) → x ∷ xs ≢ []
nonempty x xs h = cc

changed : (mysql_crud same (some log) [] (some (codes "SHOW t"))).0 ≢ []
changed h = nonempty (codes "SHOW t") [] (sym show_runs ∙ h)

mysql_crud-reads_example :
    (sql : Text) × (first : Text) × (rest : List Text) × (some (codes "SHOW t") ≡ some sql)
    × (mysql_crud same (some log) [] (some (codes "SHOW t")) ≡ log.raw [] sql)
    × (has_code b';' (trim_space sql) ≡ false)
    × (fields (map same (trim_space sql)) ≡ first ∷ rest)
    × (contains first read_only_words ≡ true)
mysql_crud-reads_example = mysql_crud-reads same log [] (some (codes "SHOW t")) changed
