-- ===== src/Retriever/Bytes.antt =====
-- The bytes of a query's vector.
use on_call_agent.Base.{
  ◌≡◌, refl, ℕ, ◌+◌, ◌*◌, ◌/◌, ◌%◌, ◌^◌, ◌<◌, Bool, true, ◌&&◌, List, [], ◌∷◌, arith, ltb, length,
}
use on_call_agent.Retriever.{vector_to_bytes}

-- Four bytes, the lowest first, as a number.
abbrev pub read_bytes : List ℕ → List ℕ
read_bytes (a ∷ b ∷ c ∷ d ∷ rest) = (a + b * 2 ^ 8 + c * 2 ^ 16 + d * 2 ^ 24) ∷ read_bytes rest
read_bytes (a ∷ b ∷ c ∷ []) = []
read_bytes (a ∷ b ∷ []) = []
read_bytes (a ∷ []) = []
read_bytes [] = []

abbrev pub all_below : ℕ → List ℕ → Bool
all_below n [] = true
all_below n (x ∷ xs) = ltb x n && all_below n xs

word_lem :
    (b : ℕ)
    → b < 2 ^ 32
    → b % 2 ^ 8
        + b / 2 ^ 8 % 2 ^ 8 * 2 ^ 8
        + b / 2 ^ 16 % 2 ^ 8 * 2 ^ 16
        + b / 2 ^ 24 % 2 ^ 8 * 2 ^ 24
      ≡ b
word_lem b h = omega (arith, h)

-- The vector is sent as four bytes for each value, from which its float32 bits are read back.
vector_to_bytes-read_bytes :
    (vector : List ℕ)
    → all_below (2 ^ 32) vector ≡ true
    → (read_bytes (vector_to_bytes vector) ≡ vector)
      × (all_below 256 (vector_to_bytes vector) ≡ true)
      × (length (vector_to_bytes vector) ≡ 4 * length vector)
unfolding vector_to_bytes
vector_to_bytes-read_bytes [] h = (refl, refl, refl)
vector_to_bytes-read_bytes (b ∷ vector) h =
    let small : b < 2 ^ 32 = ground (arith, h) in
    let (r, s, l) = vector_to_bytes-read_bytes vector (ground (arith, h)) in
    (ground (arith, r, word_lem b small), ground (arith, s), ground (arith, l))
