-- ===== src/SimpleMemory.antt =====
-- SimpleMemory of utility/mem/mem.go. The global map is a state; callers keep pointers into it, so a
-- call of SetMessages is one on the map at the id of its memory.
mod Pairs
mod Tests
use on_call_agent.Base.{
  ℕ, ◌-◌, List, [], ◌∷◌, ◌++◌, Option, none, some, Text, if◌then◌else◌, ltb, length, drop, nat_eq,
  list_eq,
}
use on_call_agent.Base.Map.{get, put}
use on_call_agent.Conversation.Memory.{even_above}

pub record SimpleMemory (M : Type 0) : Type 0 where
  pub messages : List M
  pub max_window_size : ℕ

module _ {M : Type 0} where
  -- GetSimpleMemory
  unfoldable pub get_simple_memory :
      List (Text × SimpleMemory M) → Text → List (Text × SimpleMemory M) × SimpleMemory M
  get_simple_memory memories id = elim (get id memories) [
    | some memory ↦ (memories, memory)
    | none ↦
        (let memory : SimpleMemory M = record { messages = []; max_window_size = 6 } in
          (put id memory memories, memory))
  ]

  -- SimpleMemory.SetMessages
  unfoldable pub set_messages : SimpleMemory M → M → SimpleMemory M
  set_messages memory msg =
      let all = memory.messages ++ msg ∷ [] in
      record memory {
        messages =
            if ltb memory.max_window_size (length all)
            then drop (even_above (length all - memory.max_window_size)) all
            else all;
      }

  -- SetMessages through the pointer that GetSimpleMemory returned for this id.
  unfoldable pub remember : List (Text × SimpleMemory M) → Text → M → List (Text × SimpleMemory M)
  remember memories id msg =
      let (memories', memory) = get_simple_memory memories id in
      put id (set_messages memory msg) memories'
