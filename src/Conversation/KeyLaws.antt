-- ===== src/Conversation/KeyLaws.antt =====
-- Which session keys share a storage key.
mod Tests
use on_call_agent.Base.{
  ℕ, ◌≡◌, refl, ap, sym, ◌∙◌, ◌≢◌, Bool, true, false, List, [], ◌∷◌, ◌++◌, arith, Text, codes,
  has_code, ◌==◌, ◌||◌, append_assoc, length, length-append,
}
use mathlib.Core.List.{append_cancel_left}
use on_call_agent.Conversation.Key.{SessionKey, storage_key, redis_lock_key, colon}

-- A separator that neither text holds cuts both at the same place.
split_unique :
    (c : ℕ) (xs ys rest rest' : Text)
    → has_code c xs ≡ false
    → has_code c ys ≡ false
    → xs ++ c ∷ rest ≡ ys ++ c ∷ rest'
    → (xs ≡ ys) × (rest ≡ rest')
unfolding has_code
split_unique c [] [] rest rest' h k e = ground arith
split_unique c [] (y ∷ ys) rest rest' h k e = absurd (ground arith)
split_unique c (x ∷ xs) [] rest rest' h k e = absurd (ground arith)
split_unique c (x ∷ xs) (y ∷ ys) rest rest' h k e = ground (arith, split_unique c xs ys rest rest')

-- Keys whose tenant and user identifiers hold no colon have the same storage key only if they are
-- equal.
pub storage_key-injective :
    (j k : SessionKey)
    → has_code b':' j.tenant_id ≡ false
    → has_code b':' k.tenant_id ≡ false
    → has_code b':' j.user_id ≡ false
    → has_code b':' k.user_id ≡ false
    → storage_key j ≡ storage_key k
    → j ≡ k
unfolding storage_key
storage_key-injective j k jt kt ju ku e =
    let (tenants, rest) =
      split_unique b':' j.tenant_id k.tenant_id _ _ jt kt
        (append_cancel_left (codes "conversation:") _ _ e) in
    let (users, conversations) = split_unique b':' j.user_id k.user_id _ _ ju ku rest in
    ground arith

abbrev pub session_key : Text → Text → Text → SessionKey
session_key t u c = record { tenant_id = t; user_id = u; conversation_id = c }

longer : (a b : Text) → a ++ colon ++ b ≢ a
longer a b e = grind (arith, length-append (a ++ colon) b, length-append a colon, ap length e)

-- A colon can move from one identifier to the next: the keys of tenant `a:b` and user `c`, and of
-- tenant `a` and user `b:c`, are different keys, with one storage key and one Redis lock.
storage_key-collides :
    (a b c d : Text)
    → let j = session_key (a ++ colon ++ b) c d in
      let k = session_key a (b ++ colon ++ c) d in
      (j ≢ k) × (storage_key j ≡ storage_key k) × (redis_lock_key j ≡ redis_lock_key k)
unfolding redis_lock_key storage_key
storage_key-collides a b c d =
    let same = ap (λ t. codes "conversation:" ++ t) (simp append_assoc) in
    (
      λ e. longer a b (ap (λ k. k.tenant_id) e),
      same,
      ap (λ t. codes "conversation:lock:" ++ t) same,
    )
