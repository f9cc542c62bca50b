-- ===== src/Tools/Sql/Reads.antt =====
-- What reaches the database.
use on_call_agent.Base.{
  ℕ, ◌≡◌, ◌≢◌, refl, Bool, true, false, ◌||◌, List, [], ◌∷◌, Option, none, some, arith,
  if◌then◌else◌, map, Text, is_empty, trim_space, fields, has_code, Result, ok, err, contains,
  nat_eq, list_eq, Result-cases, inl, inr,
}
use on_call_agent.Tools.Sql.{
  SqlError, Mysql, check_words, validate_read_only_sql, mysql_crud, read_only_words,
}

if_ok :
    (b : Bool) (e : SqlError)
    → ◌≡◌ {A = Result SqlError (Unit {0})} (if b then ok tt else err e) (ok tt)
    → b ≡ true
if_ok true e h = refl
if_ok false e h = absurd (ground arith)

words_lem :
    (words : List Text)
    → check_words words ≡ ok tt
    → (first : Text) × (rest : List Text) × (words ≡ first ∷ rest)
      × (contains first read_only_words ≡ true)
unfolding check_words
words_lem [] h = absurd (ground arith)
words_lem (first ∷ rest) h = (first, rest, refl, if_ok _ _ h)

-- The tool leaves the database alone unless its input is one statement, with no semicolon in it but
-- for spaces around it, whose first word in upper case is one of SELECT, SHOW, DESCRIBE, DESC and
-- EXPLAIN; then it runs the input as it was given.
pub mysql_crud-reads :
    {S : Type 0} (to_upper : ℕ → ℕ) (d : Mysql S) (s : S) (input : Option Text)
    → (mysql_crud to_upper (some d) s input).0 ≢ s
    → (sql : Text) × (first : Text) × (rest : List Text) × (input ≡ some sql)
      × (mysql_crud to_upper (some d) s input ≡ d.raw s sql)
      × (has_code b';' (trim_space sql) ≡ false)
      × (fields (map to_upper (trim_space sql)) ≡ first ∷ rest)
      × (contains first read_only_words ≡ true)
unfolding mysql_crud validate_read_only_sql
mysql_crud-reads to_upper d s none h = absurd (h refl)
mysql_crud-reads to_upper d s (some sql) h =
    elim (Result-cases (validate_read_only_sql to_upper sql)) [
      | inr (e, q) ↦ absurd (h (ground (arith, q)))
      | inl (u, q) ↦
          let blank : (is_empty (trim_space sql) || has_code b';' (trim_space sql)) ≡ false =
            ground (arith, q) in
          let (first, rest, words, allowed) =
            words_lem (fields (map to_upper (trim_space sql))) (ground (arith, q, blank)) in
          (sql, first, rest, refl, ground (arith, q), ground (arith, blank), words, allowed)
    ]
