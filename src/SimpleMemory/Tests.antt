-- ===== src/SimpleMemory/Tests.antt =====
-- Seven messages to one id, with one to another id among them.
use on_call_agent.Base.{ℕ, List, [], ◌∷◌, Text, codes}
use on_call_agent.SimpleMemory.{get_simple_memory}
use on_call_agent.SimpleMemory.Pairs.{Holds, said_to, remember_all, remember_all-window}

abbrev calls : List (Text × ℕ)
calls =
    (codes "a", 1)
    ∷ (codes "a", 2)
    ∷ (codes "b", 9)
    ∷ (codes "a", 3)
    ∷ (codes "a", 4)
    ∷ (codes "a", 5)
    ∷ (codes "a", 6)
    ∷ (codes "a", 7)
    ∷ []

remember_all-window_example :
    Holds (said_to (codes "a") calls) (get_simple_memory (remember_all [] calls) (codes "a")).1
remember_all-window_example = remember_all-window calls (codes "a")
