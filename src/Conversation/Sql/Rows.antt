-- ===== src/Conversation/Sql/Rows.antt =====
-- What the statements of SQLStore do to the rows of each conversation.
use on_call_agent.Base.{
  ℕ, zero, suc, ◌-◌, ◌≡◌, refl, Bool, List, [], ◌∷◌, ◌++◌, arith, if◌then◌else◌, ◌=?◌, Text, ok,
  length, drop, append-nil,
}
use on_call_agent.Conversation.Key.{SessionKey, session_key_eq, key_beq_iff}
use on_call_agent.Conversation.Memory.{trim, even_above}
use on_call_agent.Conversation.Tables.{Row, Statement, rows_of, delete_oldest}
use on_call_agent.Conversation.Sql.{turn_rows, trim_tx}

rows_of-append :
    (j : SessionKey) (rows more : List Row)
    → rows_of j (rows ++ more) ≡ rows_of j rows ++ rows_of j more
unfolding rows_of
rows_of-append j [] more = refl
rows_of-append j (r ∷ rows) more = ground (arith, rows_of-append j rows more)

pub rows_of-turn :
    (j key : SessionKey) (v : ℕ) (u a : Text) (rows : List Row)
    → rows_of j (rows ++ turn_rows key v u a)
      ≡ (if key =? j then rows_of j rows ++ u ∷ a ∷ [] else rows_of j rows)
unfolding rows_of
rows_of-turn j key v u a rows =
    ground (arith, rows_of-append j rows (turn_rows key v u a), append-nil (rows_of j rows))

rows_of-delete_oldest :
    (n : ℕ) (j key : SessionKey) (rows : List Row)
    → rows_of j (delete_oldest n key rows)
      ≡ (if key =? j then drop n (rows_of j rows) else rows_of j rows)
unfolding rows_of delete_oldest
rows_of-delete_oldest zero j key rows = ground arith
rows_of-delete_oldest (suc n) j key [] = ground arith
rows_of-delete_oldest (suc n) j key (r ∷ rows) = ground (
  arith,
  key_beq_iff r.owner key,
  key_beq_iff r.owner j,
  key_beq_iff key j,
  rows_of-delete_oldest n j key rows,
  rows_of-delete_oldest (suc n) j key rows,
)

-- A trim that succeeds is that of the memory store in its own conversation, and touches no other.
pub trim_tx_lem :
    (fails : Statement → Bool) (max : ℕ) (j key : SessionKey) (rows rows' : List Row)
    → trim_tx fails max key rows ≡ ok rows'
    → rows_of j rows' ≡ (if key =? j then trim max (rows_of j rows) else rows_of j rows)
unfolding trim_tx trim
trim_tx_lem fails max j key rows rows' h = ground (
  arith,
  key_beq_iff key j,
  rows_of-delete_oldest (even_above (length (rows_of key rows) - max)) j key rows,
)
