-- ===== src/Runs/Tools.antt =====
-- `_apply_tool`, `_invoke_tool`, `_invoke_llm` and `_apply_llm` of src/agentops/service.py.
use agentops_control_plane.Base.{
  ℕ, zero, suc, String, Bool, true, false, Option, none, some, List, ◌∷◌, ◌==◌, str_eq,
  if◌then◌else◌, min, ◌&&◌, find_first,
}
use agentops_control_plane.Base.Table.{newest_first}
use agentops_control_plane.Json.{Value, text, obj, Fields, end, field}
use agentops_control_plane.Store.Rows.{
  ℤ, pos, negsuc, Tool, input, template, uppercase, lowercase, json_extract, llm, memory_read,
  memory_write, handoff, approval, fail, unknown, Config, EventType, Secret,
}
use agentops_control_plane.Store.Exec.{
  Error, Result, ok, err, Exec, pure, raise, gets, lift, modify, ◌>>=◌, ◌>>◌,
}
use agentops_control_plane.Runs.Env.{Env, Call, Reply, Request}
use agentops_control_plane.Runs.Rows.{agent_event}

-- dict.get(key, default)
abbrev pub default {ℓ} : {A : Type ℓ} → A → Option A → A
default d none = d
default d (some a) = a

-- min(max(x, 0), hi)
abbrev pub clamp : ℕ → ℤ → ℕ
clamp hi (pos n) = min n hi
clamp hi (negsuc n) = 0

abbrev pub lookup : String → Fields → Option Value
lookup key end = none
lookup key (field k v fs) = if str_eq key k then some v else lookup key fs

-- The part of a provider's result that `_record_span` reads; `none` where no member is reported.
pub record Usage : Type 0 where
  pub input_tokens : Option ℕ
  pub output_tokens : Option ℕ

abbrev reported : {A : Type 0} → Option A → Bool
reported none = false
reported (some _) = true

unfoldable pub usage_of : Reply → Option Usage
usage_of r =
    if reported r.input_tokens
    then some (record { input_tokens = r.input_tokens; output_tokens = r.output_tokens })
    else if reported r.output_tokens
    then some (record { input_tokens = r.input_tokens; output_tokens = r.output_tokens })
    else if reported r.finish_reason
    then some (record { input_tokens = r.input_tokens; output_tokens = r.output_tokens })
    else none

-- The timeout in thousandths of a second, at most 300 seconds.
abbrev pub timeout_of : Config → ℕ
timeout_of config = clamp 300000 (default (pos 0) config.timeout_seconds)

-- WHERE project_id=? AND name=?
abbrev pub find_secret : ℕ → String → List (ℕ × Secret) → Option (ℕ × Secret)
find_secret project_id name rows =
    find_first (λ row. row.1.project_id == project_id && str_eq row.1.name name) rows

module _ (env : Env) where
  -- value if isinstance(value, str) else encode(value)
  abbrev pub rendered : Value → String
  rendered (text s) = s
  rendered v = env.encode v

  -- str(value)
  abbrev pub as_str : Value → String
  as_str (text s) = s
  as_str v = env.to_str v

  extract : String → Value → Result Value
  extract key (obj fs) = elim (lookup key fs) [
    | none ↦ err (Error.value_error "key not found")
    | some v ↦ ok v
  ]
  extract key _ = err (Error.value_error "json_extract requires an object input")

  abbrev pub request : Config → Value → Option String → Request
  request config v api_key = record {
    provider = default "ollama" config.provider;
    model = default "" config.model;
    prompt = env.replace_value (default "{value}" config.prompt) (rendered v);
    system = default "" config.system;
    api_key = api_key;
  }

  answer : Result Reply → Result Value
  answer (ok r) = ok (text r.text)
  answer (err e) = err e

  unfoldable pub apply_tool : Call → Tool → Config → Value → Result Value
  unfolding extract answer
  apply_tool call input config v = ok v
  apply_tool call template config v =
      ok (text (env.replace_value (default "{value}" config.template_text) (rendered v)))
  apply_tool call uppercase config v = ok (text (env.upper (as_str v)))
  apply_tool call lowercase config v = ok (text (env.lower (as_str v)))
  apply_tool call json_extract config v = extract (default "" config.key) v
  apply_tool call llm config v = answer (env.generate call (request config v none)).1
  apply_tool call fail config v =
      err (Error.runtime (default "intentional workflow failure" config.message))
  apply_tool call memory_read config v = err (Error.value_error "unknown tool")
  apply_tool call memory_write config v = err (Error.value_error "unknown tool")
  apply_tool call handoff config v = err (Error.value_error "unknown tool")
  apply_tool call approval config v = err (Error.value_error "unknown tool")
  apply_tool call (unknown name) config v = err (Error.value_error "unknown tool")

  unfoldable pub invoke_tool : Call → Tool → Config → Value → Result Value
  invoke_tool call tool config v =
      if timeout_of config == 0
      then apply_tool call tool config v
      else if env.timed_out call
      then err (Error.timeout "step timed out")
      else apply_tool call tool config v

  abbrev revealed : Option (ℕ × Secret) → Exec String
  revealed none = raise (Error.value_error "credential_ref not found in this project")
  revealed (some (id, secret)) = lift (env.decrypt secret.ciphertext)

  -- `reveal_secret_named`: the use of a secret by a run is audited.
  unfoldable pub reveal_secret_named : ℕ → String → Exec String
  unfolding newest_first
  reveal_secret_named project_id name = do
    row ← gets (λ s. find_secret project_id name (newest_first s.secrets))
    value ← revealed row
    modify λ s. record s {
      audit_events =
          (record { actor = "run"; action = "secret.reveal"; resource = name; status_code = 200 })
          ∷ s.audit_events;
    }
    pure value

  api_key_of : ℕ → Option String → Exec (Option String)
  unfolding reveal_secret_named
  api_key_of project_id none = pure none
  api_key_of project_id (some name) =
      if str_eq name ""
      then pure none
      else do key ← reveal_secret_named project_id name; pure (some key)

  -- `_on_chunk`, once for each chunk of the answer.
  unfoldable pub stream_chunks : ℕ → ℕ → Exec (Unit {0})
  unfolding agent_event
  stream_chunks run_id zero = pure tt
  stream_chunks run_id (suc n) = agent_event run_id EventType.llm_chunk >> stream_chunks run_id n

  unfoldable pub apply_llm : Call → ℕ → Config → Value → Exec (Value × Option Usage)
  unfolding api_key_of stream_chunks usage_of
  apply_llm call project_id config v = do
    api_key ← api_key_of project_id config.credential_ref
    let answered = env.generate call (request config v api_key)
    stream_chunks call.run_id answered.0
    reply ← lift answered.1
    pure (text reply.text, usage_of reply)

  -- After a timeout the answer is dropped; the thread goes on, so its writes are made.
  unfoldable pub invoke_llm : Call → ℕ → Config → Value → Exec (Value × Option Usage)
  unfolding apply_llm
  invoke_llm call project_id config v =
      if timeout_of config == 0
      then apply_llm call project_id config v
      else if env.timed_out call
      then (λ s. (err (Error.timeout "step timed out"), (apply_llm call project_id config v s).1))
      else apply_llm call project_id config v
