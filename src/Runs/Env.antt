-- ===== src/Runs/Env.antt =====
-- What the execution of a run takes from outside the service.
use agentops_control_plane.Base.{ℕ, String, Bool, Option}
use agentops_control_plane.Json.{Value}
use agentops_control_plane.Store.Exec.{Result}

-- A provider's answer: the text, and the usage where it is reported.
pub record Reply : Type 0 where
  pub text : String
  pub input_tokens : Option ℕ
  pub output_tokens : Option ℕ
  pub finish_reason : Option String

-- A call of a tool: the run, the step and the attempt at it.
pub record Call : Type 0 where
  pub run_id : ℕ
  pub index : ℕ
  pub trial : ℕ

pub record Request : Type 0 where
  pub provider : String
  pub model : String
  pub prompt : String
  pub system : String
  pub api_key : Option String

-- `encode` is `json.dumps`, `to_str` Python's `str`, `upper`, `lower` and `replace_value` (of
-- "{value}") the methods of `str`, and `len` its length. `generate` is what the provider answers to
-- a call, with the number of chunks that were streamed, `decrypt` the vault, and `timed_out` says whether a call is not done within its timeout.
-- `cancelled_during` says whether another request cancels the run while a step of it is running.
-- `slack` and `email` say whether these destinations are configured. `now` is the time, in seconds,
-- that the clock shows throughout one request.
pub record Env : Type 0 where
  pub now : ℕ
  pub encode : Value → String
  pub to_str : Value → String
  pub upper : String → String
  pub lower : String → String
  pub replace_value : String → String → String
  pub len : String → ℕ
  pub generate : Call → Request → ℕ × Result Reply
  pub decrypt : String → Result String
  pub timed_out : Call → Bool
  pub cancelled_during : ℕ → ℕ → Bool
  pub slack : Bool
  pub email : Bool
