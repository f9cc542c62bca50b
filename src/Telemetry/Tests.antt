-- ===== src/Telemetry/Tests.antt =====
-- A tool's stream of one chunk.
use on_call_agent.Base.{ℕ, true, List, [], ◌∷◌, ◌++◌, Option, none, some, Text, codes}
use on_call_agent.Telemetry.{Component, of_tool, RunInfo, Output, observe_stream}
use on_call_agent.Telemetry.Spans.{CountsOnce, chunks_of, ending, observe_stream-once}

abbrev a_tool : Option RunInfo
a_tool = some (record { component = of_tool; run_type = []; run_name = codes "logs" })

abbrev nothing : Output ℕ
nothing = record { as_model = none; as_retrieval = none }

abbrev label : Component → Text
label c = codes "Tool"

abbrev chunks : List (Output ℕ × ℕ)
chunks = (nothing, 5) ∷ []

observe_stream-once_example :
    CountsOnce true a_tool (observe_stream label true a_tool (chunks_of chunks ++ ending none ∷ []))
observe_stream-once_example = observe_stream-once label true a_tool chunks none []
