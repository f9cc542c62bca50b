-- ===== src/SimpleMemory/Pairs.antt =====
-- A memory drops its oldest messages in pairs.
use on_call_agent.Base.{
  subst, ◌=?◌, list_beq_iff, ℕ, ◌+◌, ◌-◌, ◌%◌, ◌≤◌, ◌≡◌, refl, ap, ◌∙◌, sym, true, List, [], ◌∷◌,
  ◌++◌, arith, Text, if◌then◌else◌, ltb, length, drop, length-drop, length-append, drop-drop,
  drop-append, append_assoc, append-nil, Bool-cases, inl, inr, nat_eq, list_eq, Option-cases,
}
use on_call_agent.Base.Map.{get, put, get-put}
use on_call_agent.Conversation.Memory.{even_above}
use on_call_agent.SimpleMemory.{SimpleMemory, get_simple_memory, set_messages, remember}

over_lem : (m n : ℕ) → ltb m n ≡ true → m + 1 ≤ n
over_lem m n h = ground arith

module _ {M : Type 0} where
  -- A memory that holds the last of `transcript`, an even number of messages left out.
  pub record Holds (transcript : List M) (memory : SimpleMemory M) : Type 0 where
    pub dropped : ℕ
    pub even : dropped % 2 ≡ 0
    pub within : dropped ≤ length transcript
    pub last : memory.messages ≡ drop dropped transcript
    pub bounded : length memory.messages ≤ memory.max_window_size
    pub size : memory.max_window_size ≡ 6

  set_messages-Holds :
      (transcript : List M) (memory : SimpleMemory M) (msg : M)
      → Holds transcript memory
      → Holds (transcript ++ msg ∷ []) (set_messages memory msg)
  unfolding set_messages
  set_messages-Holds transcript memory msg h =
      let all = memory.messages ++ msg ∷ [] in
      let longer = length-append memory.messages (msg ∷ []) in
      let grown = length-append transcript (msg ∷ []) in
      let held = length-drop h.dropped transcript in
      let kept : all ≡ drop h.dropped (transcript ++ msg ∷ []) =
        ap (λ xs. xs ++ msg ∷ []) h.last
        ∙ sym (drop-append h.dropped transcript (msg ∷ []) h.within) in
      elim (Bool-cases (ltb memory.max_window_size (length all))) [
        | inr short ↦ record {
          dropped = h.dropped;
          even = h.even;
          within = omega (arith, grown, h.within);
          last = ground (arith, short, kept);
          bounded = ground (arith, short, longer);
          size = h.size;
        }
        | inl over ↦
            let two : even_above (length all - memory.max_window_size) ≡ 2 =
              ground (arith, over, longer, h.bounded) in
            let cut : (set_messages memory msg).messages ≡ drop 2 all =
              ground (arith, over, ap (λ k. drop k all) two) in
            record {
              dropped = h.dropped + 2;
              even = omega (arith, h.even);
              within = omega (
                arith,
                grown,
                longer,
                held,
                ap length h.last,
                over_lem memory.max_window_size (length all) over,
                h.size,
              );
              last = cut ∙ ap (drop 2) kept ∙ drop-drop 2 h.dropped (transcript ++ msg ∷ []);
              bounded = grind (arith, ap length cut, length-drop 2 all, longer, h.bounded, h.size);
              size = h.size;
            }
      ]

  -- The messages given to one id, in order.
  unfoldable pub said_to : Text → List (Text × M) → List M
  said_to id [] = []
  said_to id ((i, msg) ∷ calls) = if i =? id then msg ∷ said_to id calls else said_to id calls

  unfoldable pub remember_all :
      List (Text × SimpleMemory M) → List (Text × M) → List (Text × SimpleMemory M)
  remember_all memories [] = memories
  remember_all memories ((id, msg) ∷ calls) = remember_all (remember memories id msg) calls

  get-remember :
      (memories : List (Text × SimpleMemory M)) (i id : Text) (msg : M)
      → (get_simple_memory (remember memories i msg) id).1 ≡ (
          if i =? id
          then set_messages (get_simple_memory memories i).1 msg
          else (get_simple_memory memories id).1)
  unfolding remember get_simple_memory
  get-remember memories i id msg =
      let first = put i (record { messages = []; max_window_size = 6 }) memories in
      elim (Option-cases (get i memories)) [
        | inl q ↦ elim (Option-cases (get id memories)) [
          | inl r ↦ ground (
            arith,
            q,
            r,
            list_beq_iff i id,
            get-put i id (set_messages (record { messages = []; max_window_size = 6 }) msg) first,
            get-put i id (record { messages = []; max_window_size = 6 }) memories,
          )
          | inr (m, r) ↦ ground (
            arith,
            q,
            r,
            list_beq_iff i id,
            get-put i id (set_messages (record { messages = []; max_window_size = 6 }) msg) first,
            get-put i id (record { messages = []; max_window_size = 6 }) memories,
          )
        ]
        | inr (m, q) ↦
            ground (arith, q, list_beq_iff i id, get-put i id (set_messages m msg) memories)
      ]

  said_now : Text → M → Text → List M
  said_now i msg id = if i =? id then msg ∷ [] else []

  said_to_lem :
      (i : Text) (msg : M) (id : Text) (calls : List (Text × M))
      → said_now i msg id ++ said_to id calls ≡ said_to id ((i, msg) ∷ calls)
  unfolding said_now said_to
  said_to_lem i msg id calls = ground arith

  remember-Holds :
      (memories : List (Text × SimpleMemory M)) (log : Text → List M) (i : Text) (msg : M)
      (j : Text)
      → Holds (log i) (get_simple_memory memories i).1
      → Holds (log j) (get_simple_memory memories j).1
      → Holds (log j ++ said_now i msg j) (get_simple_memory (remember memories i msg) j).1
  unfolding said_now
  remember-Holds memories log i msg j hi hj =
      let e = get-remember memories i j msg in
      elim (Bool-cases (i =? j)) [
        | inl q ↦
            let same : i ≡ j = ground (arith, q, list_beq_iff i j) in
            subst (λ m. Holds (log j ++ (if i =? j then msg ∷ [] else [])) m) (ground (arith, e, q))
              (subst (λ xs. Holds xs (set_messages (get_simple_memory memories i).1 msg))
                (ap (λ k. log k ++ msg ∷ []) same ∙ ground (arith, q))
                (set_messages-Holds (log i) (get_simple_memory memories i).1 msg hi))
        | inr q ↦
            subst (λ m. Holds (log j ++ (if i =? j then msg ∷ [] else [])) m) (ground (arith, e, q))
              (subst (λ xs. Holds xs (get_simple_memory memories j).1)
                (sym (append-nil (log j)) ∙ ground (arith, q)) hj)
      ]

  remember_all-Holds :
      (memories : List (Text × SimpleMemory M)) (log : Text → List M) (calls : List (Text × M))
      → ((id : Text) → Holds (log id) (get_simple_memory memories id).1)
      → (id : Text)
      → Holds (log id ++ said_to id calls) (get_simple_memory (remember_all memories calls) id).1
  unfolding remember_all said_to
  remember_all-Holds memories log [] h id =
      subst (λ xs. Holds xs (get_simple_memory memories id).1) (sym (append-nil (log id))) (h id)
  remember_all-Holds memories log ((i, msg) ∷ calls) h id =
      subst (λ xs. Holds xs (get_simple_memory (remember_all (remember memories i msg) calls) id).1)
        (append_assoc (log id) (said_now i msg id) (said_to id calls)
          ∙ ap (λ xs. log id ++ xs) (said_to_lem i msg id calls))
        (remember_all-Holds (remember memories i msg) (λ j. log j ++ said_now i msg j) calls
          (λ j. remember-Holds memories log i msg j (h i) (h j)) id)

  -- However messages for many ids are mixed, the memory of an id holds the last of the messages given
  -- to that id, six at most, and what it has dropped is an even number of the oldest ones.
  pub remember_all-window :
      (calls : List (Text × M)) (id : Text)
      → Holds (said_to id calls) (get_simple_memory (remember_all [] calls) id).1
  unfolding get_simple_memory get
  remember_all-window calls id =
      remember_all-Holds [] (λ j. []) calls
        (λ j. record {
          dropped = 0;
          even = refl;
          within = omega arith;
          last = refl;
          bounded = omega arith;
          size = refl;
        })
        id
