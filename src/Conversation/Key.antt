-- ===== src/Conversation/Key.antt =====
-- The session key, the errors and the contexts of internal/conversation/store.go.
use on_call_agent.Base.{
  ◌≡◌, Bool, true, ◌&&◌, ◌||◌, ◌++◌, arith, if◌then◌else◌, Eq, ◌=?◌, list_beq_iff, nat_eq, list_eq,
  Text, codes, is_empty, Result, ok, err, ◌↔◌,
}

-- The package's sentinel errors, ctx.Err(), and the errors that the code builds in place.
pub data Error : Type 0 where
  invalid_session_key invalid_message version_conflict idempotency_conflict : Error
  canceled deadline_exceeded : Error
  idempotency_key_required callback_required encode_failed idempotency_unsupported : Error
  database_failed decode_failed : Error

pub record SessionKey : Type 0 where
  pub tenant_id : Text
  pub user_id : Text
  pub conversation_id : Text

unfoldable pub key_beq : SessionKey → SessionKey → Bool
key_beq j k =
    j.tenant_id =? k.tenant_id && j.user_id =? k.user_id && j.conversation_id =? k.conversation_id

pub key_beq_iff : (j k : SessionKey) → (key_beq j k ≡ true) ↔ (j ≡ k)
unfolding key_beq
key_beq_iff j k = ground (
  arith,
  list_beq_iff j.tenant_id k.tenant_id,
  list_beq_iff j.user_id k.user_id,
  list_beq_iff j.conversation_id k.conversation_id,
)

instance abbrev pub session_key_eq : Eq SessionKey
session_key_eq = record { beq = key_beq; beq_iff = key_beq_iff }

-- SessionKey.Validate
unfoldable pub validate : SessionKey → Result Error (Unit {0})
validate k =
    if is_empty k.tenant_id || is_empty k.user_id || is_empty k.conversation_id
    then err invalid_session_key
    else ok tt

abbrev pub colon : Text
colon = codes ":"

-- SessionKey.StorageKey: fmt.Sprintf("conversation:%s:%s:%s", …)
unfoldable pub storage_key : SessionKey → Text
storage_key k =
    codes "conversation:" ++ (k.tenant_id ++ (colon ++ (k.user_id ++ (colon ++ k.conversation_id))))

-- redisLockKey of lock.go: fmt.Sprintf("conversation:lock:%s", key.StorageKey())
unfoldable pub redis_lock_key : SessionKey → Text
redis_lock_key k = codes "conversation:lock:" ++ storage_key k

-- A context as the code sees it: nil, still running, or ended with the error of ctx.Err().
pub data Context : Type 0 where
  nil_context live_context : Context
  ended_context : Error → Context

-- contextErr
unfoldable pub context_err : Context → Result Error (Unit {0})
context_err nil_context = ok tt
context_err live_context = ok tt
context_err (ended_context e) = err e
