-- ===== src/Telemetry.antt =====
-- Spans and metrics of the agent's components, internal/observability/eino_callback.go. What the
-- handler does to the span and the metrics is the list of its writes; durations are nanoseconds.
pub mod Spans
mod Tests
use on_call_agent.Base.{
  ℕ, Bool, true, false, not, ◌&&◌, ◌||◌, ◌==◌, List, [], ◌∷◌, ◌++◌, Option, none, some,
  if◌then◌else◌, Text, codes, is_empty, length,
}

-- The components that the handler tells apart; another is known by its name, which may be empty.
pub data Component : Type 0 where
  of_tool of_chat_model of_retriever : Component
  of_other : Text → Component

pub record RunInfo : Type 0 where
  pub component : Component
  pub run_type : Text
  pub run_name : Text

pub record Usage : Type 0 where
  pub prompt_tokens : ℕ
  pub completion_tokens : ℕ
  pub total_tokens : ℕ

-- model.CallbackOutput: the model's name, empty where it is not configured, and the usage.
pub record ModelOutput : Type 0 where
  pub model_name : Text
  pub usage : Option Usage

-- The two values of a document's metadata, where they have the types that are asked for.
pub record Retrieved (F : Type 0) : Type 0 where
  pub distance : Option F
  pub collection : Option Text

-- A callback's output, as model.ConvCallbackOutput and retriever.ConvCallbackOutput read it.
pub record Output (F : Type 0) : Type 0 where
  pub as_model : Option ModelOutput
  pub as_retrieval : Option (List (Option (Retrieved F)))

-- Writes to the span and to the metrics.
pub data Write (F : Type 0) : Type 0 where
  component_duration : Text → Text → Write F
  component_error : Text → Text → Text → Write F
  tool_call : Text → Bool → Write F
  first_token usage_tokens : Text → ℕ → Write F
  usage_missing : Text → Write F
  retrieval_documents : ℕ → Text → Write F
  retrieval_empty : Text → Write F
  retrieval_distance : F → Text → Write F
  span_error span_model : Text → Write F
  span_usage_missing end_span : Write F
  span_usage : ℕ → ℕ → ℕ → Write F
  span_documents span_first_token : ℕ → Write F

-- component and name as runInfoValues gives them; `label` is the string of a component.
unfoldable pub run_info_values : (Component → Text) → Option RunInfo → Text × Text
run_info_values label none = (codes "unknown", codes "unknown")
run_info_values label (some info) =
    let c = label info.component in
    let name = if is_empty info.run_name then info.run_type else info.run_name in
    (if is_empty c then codes "unknown" else c, if is_empty name then codes "unknown" else name)

unfoldable pub run_info_type : Option RunInfo → Text
run_info_type none = codes "unknown"
run_info_type (some info) = if is_empty info.run_type then codes "unknown" else info.run_type

-- A write to the metrics, where there are any.
abbrev pub when {ℓ} : {A : Type ℓ} → Bool → List A → List A
when b xs = if b then xs else []

-- The configured name of a model.
abbrev pub known_model : Option ModelOutput → Text
known_model none = codes "unknown"
known_model (some m) = if is_empty m.model_name then codes "unknown" else m.model_name

abbrev pub is_tool : Option RunInfo → Bool
is_tool none = false
is_tool (some info) = elim info.component [
  | of_tool ↦ true
  | of_chat_model ↦ false
  | of_retriever ↦ false
  | of_other name ↦ false
]

abbrev pub is_chat_model : Option RunInfo → Bool
is_chat_model none = false
is_chat_model (some info) = elim info.component [
  | of_tool ↦ false
  | of_chat_model ↦ true
  | of_retriever ↦ false
  | of_other name ↦ false
]

module _ {F : Type 0} where
  -- The loop of setRetrievalSummary: the last collection that is named, and the distances.
  unfoldable pub last_collection : Text → List (Option (Retrieved F)) → Text
  last_collection name [] = name
  last_collection name (none ∷ docs) = last_collection name docs
  last_collection name (some d ∷ docs) =
      last_collection (elim d.collection [ none ↦ name | some c ↦ if is_empty c then name else c ])
        docs

  unfoldable pub distances_of : List (Option (Retrieved F)) → List F
  distances_of [] = []
  distances_of (none ∷ docs) = distances_of docs
  distances_of (some d ∷ docs) =
      let rest = distances_of docs in elim d.distance [ none ↦ rest | some x ↦ x ∷ rest ]

  abbrev pub distance_writes : Text → List F → List (Write F)
  distance_writes name [] = []
  distance_writes name (x ∷ xs) = retrieval_distance x name ∷ distance_writes name xs

  -- setRetrievalSummary, up to the statistics of the distances.
  unfoldable pub set_retrieval_summary : Bool → List (Option (Retrieved F)) → List (Write F)
  set_retrieval_summary has_metrics docs =
      let name = last_collection (codes "unknown") docs in
      span_documents (length docs)
      ∷ when has_metrics (
          retrieval_documents (length docs) name
            ∷ when (length docs == 0) (retrieval_empty name ∷ [])
          ++ distance_writes name (distances_of docs))

  -- The usage of a chat model's output.
  unfoldable pub set_usage : Bool → ModelOutput → List (Write F)
  set_usage has_metrics m =
      let name = known_model (some m) in
      elim m.usage [
        | none ↦ span_model name ∷ span_usage_missing ∷ when has_metrics (usage_missing name ∷ [])
        | some u ↦
            span_model name
            ∷ span_usage u.prompt_tokens u.completion_tokens u.total_tokens
            ∷ when has_metrics (
                usage_tokens name u.prompt_tokens
                ∷ usage_tokens name u.completion_tokens
                ∷ usage_tokens name u.total_tokens
                ∷ [])
      ]

  -- setOutputSummary; a nil output is `none`.
  unfoldable pub set_output_summary : Bool → Option RunInfo → Option (Output F) → List (Write F)
  set_output_summary has_metrics none output = []
  set_output_summary has_metrics (some info) none = []
  set_output_summary has_metrics (some info) (some o) = elim info.component [
    | of_tool ↦ []
    | of_chat_model ↦ elim o.as_model [ none ↦ [] | some m ↦ set_usage has_metrics m ]
    | of_retriever ↦ elim o.as_retrieval [
      | none ↦ []
      | some docs ↦ set_retrieval_summary has_metrics docs
    ]
    | of_other name ↦ []
  ]

  -- finishEinoSpan; an error is given by its class.
  unfoldable pub finish_eino_span :
      (Component → Text) → Bool → Option RunInfo → Option (Output F) → Option Text → List (Write F)
  finish_eino_span label has_metrics info output failure =
      let (c, name) = run_info_values label info in
      let kind = run_info_type info in
      when has_metrics (component_duration c kind ∷ []) ++ (elim failure [
        | some error_type ↦
            span_error error_type
              ∷ when has_metrics (
                  component_error c kind error_type
                  ∷ when (is_tool info) (tool_call name false ∷ []))
            ++ end_span ∷ []
        | none ↦
            set_output_summary has_metrics info output
            ++ when (has_metrics && is_tool info) (tool_call name true ∷ [])
            ++ end_span ∷ []
      ])

  -- recordFirstToken
  unfoldable pub record_first_token : Bool → Option RunInfo → Option (Output F) → ℕ → List (Write F)
  record_first_token has_metrics info output duration =
      if duration == 0 || not (is_chat_model info)
      then []
      else (let m = elim output as (λ x. Option ModelOutput) [
        | none ↦ none
        | some o ↦ o.as_model
      ] in
          span_first_token duration ∷ when has_metrics (first_token (known_model m) duration ∷ []))

-- What Recv answers, with the time since the start for a chunk.
pub data Recv (F : Type 0) : Type 0 where
  chunk : Output F → ℕ → Recv F
  eof : Recv F
  broken : Text → Recv F

module _ {F : Type 0} (label : Component → Text) (has_metrics : Bool) (info : Option RunInfo) where
  -- observeStream, from the last chunk and the first duration on; where the list ends the reader still
  -- waits.
  unfoldable pub observe_from : Option (Output F) → ℕ → List (Recv F) → List (Write F)
  observe_from last first [] = []
  observe_from last first (eof ∷ recvs) =
      record_first_token has_metrics info last first
      ++ finish_eino_span label has_metrics info last none
  observe_from last first (broken error_type ∷ recvs) =
      finish_eino_span label has_metrics info last (some error_type)
  observe_from last first (chunk o elapsed ∷ recvs) =
      observe_from (some o) (if first == 0 then elapsed else first) recvs

  unfoldable pub observe_stream : List (Recv F) → List (Write F)
  observe_stream recvs = observe_from none 0 recvs
