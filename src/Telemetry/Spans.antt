-- ===== src/Telemetry/Spans.antt =====
-- How often a span is ended and a run is counted.
use on_call_agent.Base.{
  ◌≡◌, ◌⊎◌, refl, ◌∙◌, ℕ, ◌+◌, ◌<◌, Bool, true, ◌&&◌, ◌==◌, List, [], ◌∷◌, ◌++◌, Option, none, some,
  if◌then◌else◌, arith, Text, codes, length, Option-cases, inl, inr,
}
use on_call_agent.Telemetry.{
  Component, of_tool, of_chat_model, of_retriever, of_other, RunInfo, ModelOutput, Retrieved,
  Output, Write, component_duration, component_error, tool_call, first_token, usage_tokens,
  usage_missing, retrieval_documents, retrieval_empty, retrieval_distance, span_error, span_model,
  span_usage_missing, end_span, span_usage, span_documents, span_first_token, when, is_tool,
  distances_of, distance_writes, last_collection, set_retrieval_summary, set_usage,
  set_output_summary, finish_eino_span, record_first_token, run_info_values, Recv, chunk, eof,
  broken, observe_from, observe_stream,
}

module _ {F : Type 0} where
  -- The writes that count: the end of the span, a tool's call and a component's duration.
  abbrev pub mark : Write F → ℕ
  mark end_span = 0
  mark (tool_call name succeeded) = 1
  mark (component_duration c kind) = 2
  mark (component_error c kind e) = 3
  mark (first_token m n) = 3
  mark (usage_tokens m n) = 3
  mark (usage_missing m) = 3
  mark (retrieval_documents n c) = 3
  mark (retrieval_empty c) = 3
  mark (retrieval_distance x c) = 3
  mark (span_error e) = 3
  mark (span_model m) = 3
  mark span_usage_missing = 3
  mark (span_usage a b c) = 3
  mark (span_documents n) = 3
  mark (span_first_token n) = 3

  -- How many writes have a mark.
  abbrev pub tally : ℕ → List (Write F) → ℕ
  tally n [] = 0
  tally n (w ∷ ws) = (if mark w == n then 1 else 0) + tally n ws

  tally-append : (n : ℕ) (vs ws : List (Write F)) → tally n (vs ++ ws) ≡ tally n vs + tally n ws
  tally-append n [] ws = omega arith
  tally-append n (v ∷ vs) ws = ground (arith, tally-append n vs ws)

  distance_writes-tally :
      (n : ℕ) (c : Text) (xs : List F) → n < 3 → tally n (distance_writes c xs) ≡ 0
  distance_writes-tally n c [] h = refl
  distance_writes-tally n c (x ∷ xs) h = ground (arith, h, distance_writes-tally n c xs h)

  set_retrieval_summary-tally :
      (n : ℕ) (has_metrics : Bool) (docs : List (Option (Retrieved F)))
      → n < 3
      → tally n (set_retrieval_summary has_metrics docs) ≡ 0
  unfolding set_retrieval_summary
  set_retrieval_summary-tally n has_metrics docs h =
      let name = last_collection (codes "unknown") docs in
      let none_found : Bool = length docs == 0 in
      let empties : List (Write F) = when none_found (retrieval_empty name ∷ []) in
      let writes : List (Write F) = distance_writes name (distances_of docs) in
      ground (
        arith,
        h,
        tally-append n empties writes,
        distance_writes-tally n name (distances_of docs) h,
      )

Component-cases :
    (c : Component)
    → (c ≡ of_tool)
      ⊎ ((c ≡ of_chat_model) ⊎ ((c ≡ of_retriever) ⊎ ((name : Text) × (c ≡ of_other name))))
Component-cases of_tool = inl refl
Component-cases of_chat_model = inr (inl refl)
Component-cases of_retriever = inr (inr (inl refl))
Component-cases (of_other name) = inr (inr (inr (name, refl)))

-- The usage of a model counts nothing.
set_usage-tally :
    (F : Type 0) (n : ℕ) (has_metrics : Bool) (m : ModelOutput)
    → n < 3
    → tally n (set_usage {F = F} has_metrics m) ≡ 0
unfolding set_usage
set_usage-tally F n has_metrics m h = ground (arith, h)

module _ {F : Type 0} where
  -- The summary of an output counts nothing.
  set_output_summary-tally :
      (n : ℕ) (has_metrics : Bool) (info : Option RunInfo) (output : Option (Output F))
      → n < 3
      → tally n (set_output_summary has_metrics info output) ≡ 0
  unfolding set_output_summary
  set_output_summary-tally n has_metrics none output h = refl
  set_output_summary-tally n has_metrics (some info) none h = refl
  set_output_summary-tally n has_metrics (some info) (some o) h =
      elim (Component-cases info.component) [
        | inl c ↦ ground (arith, c)
        | inr (inl c) ↦ elim (Option-cases o.as_model) [
          | inl e ↦ ground (arith, c, e)
          | inr (m, e) ↦ ground (arith, c, e, set_usage-tally F n has_metrics m h)
        ]
        | inr (inr (inl c)) ↦ elim (Option-cases o.as_retrieval) [
          | inl e ↦ ground (arith, c, e)
          | inr (docs, e) ↦ ground (arith, c, e, set_retrieval_summary-tally n has_metrics docs h)
        ]
        | inr (inr (inr (name, c))) ↦ ground (arith, c)
      ]

  record_first_token-tally :
      (n : ℕ) (has_metrics : Bool) (info : Option RunInfo) (output : Option (Output F))
      (duration : ℕ)
      → n < 3
      → tally n (record_first_token has_metrics info output duration) ≡ 0
  unfolding record_first_token
  record_first_token-tally n has_metrics info output duration h = ground (arith, h)

  -- What is counted for one run of a component.
  abbrev pub CountsOnce : Bool → Option RunInfo → List (Write F) → Type 0
  CountsOnce has_metrics info ws =
      (tally 0 ws ≡ 1)
      × (tally 1 ws ≡ (if has_metrics && is_tool info then 1 else 0))
      × (tally 2 ws ≡ (if has_metrics then 1 else 0))

  finish_eino_span-CountsOnce :
      (label : Component → Text) (has_metrics : Bool) (info : Option RunInfo)
      (output : Option (Output F)) (failure : Option Text)
      → CountsOnce has_metrics info (finish_eino_span label has_metrics info output failure)
  unfolding finish_eino_span
  finish_eino_span-CountsOnce label has_metrics info output none =
      let s : List (Write F) = set_output_summary has_metrics info output in
      let tool : List (Write F) =
        when (has_metrics && is_tool info) (tool_call (run_info_values label info).1 true ∷ []) in
      let split : (n : ℕ)
          → tally n (s ++ tool ++ end_span ∷ [])
            ≡ tally n s + tally n tool + tally {F = F} n (end_span ∷ []) =
        λ n. omega (arith, tally-append n (s ++ tool) (end_span ∷ []), tally-append n s tool) in
      let quiet : (n : ℕ) → n < 3 → tally n s ≡ 0 =
        λ n h. set_output_summary-tally n has_metrics info output h in
      ground (
        arith,
        split 0,
        split 1,
        split 2,
        quiet 0 (omega arith),
        quiet 1 (omega arith),
        quiet 2 (omega arith),
      )
  finish_eino_span-CountsOnce label has_metrics info output (some e) = ground arith

  -- How a stream ends: at its end, or with an error.
  abbrev pub ending : Option Text → Recv F
  ending none = eof
  ending (some e) = broken e

  -- The chunks of a stream, with their times.
  abbrev pub chunks_of : List (Output F × ℕ) → List (Recv F)
  chunks_of [] = []
  chunks_of ((o, elapsed) ∷ chunks) = chunk o elapsed ∷ chunks_of chunks

  observe_from-once :
      (label : Component → Text) (has_metrics : Bool) (info : Option RunInfo)
      (chunks : List (Output F × ℕ)) (failure : Option Text) (later : List (Recv F))
      (last : Option (Output F)) (first : ℕ)
      → CountsOnce has_metrics info (
          observe_from label has_metrics info last first
            (chunks_of chunks ++ ending failure ∷ later))
  unfolding observe_from
  observe_from-once label has_metrics info [] none later last first =
      let token : List (Write F) = record_first_token has_metrics info last first in
      let rest : List (Write F) = finish_eino_span label has_metrics info last none in
      let split : (n : ℕ) → tally n (token ++ rest) ≡ tally n token + tally n rest =
        λ n. tally-append n token rest in
      let quiet : (n : ℕ) → n < 3 → tally n token ≡ 0 =
        λ n h. record_first_token-tally n has_metrics info last first h in
      let same : (n : ℕ) → n < 3 → tally n (token ++ rest) ≡ tally n rest =
        λ n h. omega (arith, split n, quiet n h) in
      let (a, b, c) = finish_eino_span-CountsOnce label has_metrics info last none in
      (same 0 (omega arith) ∙ a, same 1 (omega arith) ∙ b, same 2 (omega arith) ∙ c)
  observe_from-once label has_metrics info [] (some e) later last first =
      finish_eino_span-CountsOnce label has_metrics info last (some e)
  observe_from-once label has_metrics info ((o, elapsed) ∷ chunks) failure later last first =
      observe_from-once label has_metrics info chunks failure later (some o)
        (if first == 0 then elapsed else first)

  -- A streamed output that ends, or fails, after any number of chunks, ends its span once, and where
  -- there are metrics it records one duration, and one call if the component is a tool.
  pub observe_stream-once :
      (label : Component → Text) (has_metrics : Bool) (info : Option RunInfo)
      (chunks : List (Output F × ℕ)) (failure : Option Text) (later : List (Recv F))
      → CountsOnce has_metrics info
          (observe_stream label has_metrics info (chunks_of chunks ++ ending failure ∷ later))
  unfolding observe_stream
  observe_stream-once label has_metrics info chunks failure later =
      observe_from-once label has_metrics info chunks failure later none 0
