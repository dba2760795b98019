-- ===== src/Providers/Registry.antt =====
-- The table PROVIDERS of src/agentops/providers.py, the members of a decoded answer, and what the
-- registry takes from outside.
use agentops_control_plane.Base.{ℕ, String, Bool, List, Option, none, some, str_eq, if◌then◌else◌}
use agentops_control_plane.Json.{Value, arr, obj, cons}
use agentops_control_plane.Store.Rows.{ℤ}
use agentops_control_plane.Runs.Tools.{default, lookup}
use agentops_control_plane.Providers.Transport.{Attempt, Response}
use agentops_control_plane.Providers.Mock.{Host}

pub data Provider : Type 0 where
  mock ollama openai anthropic : Provider

-- The keys of PROVIDERS.
unfoldable pub provider_of : String → Option Provider
provider_of name =
    if str_eq name "mock"
    then some mock
    else if str_eq name "ollama"
    then some ollama
    else if str_eq name "openai"
    then some openai
    else if str_eq name "anthropic"
    then some anthropic
    else none

abbrev pub name_of : Provider → String
name_of mock = "mock"
name_of ollama = "ollama"
name_of openai = "openai"
name_of anthropic = "anthropic"

abbrev pub endpoint : Provider → String
endpoint mock = ""
endpoint ollama = "http://127.0.0.1:11434"
endpoint openai = "https://api.openai.com"
endpoint anthropic = "https://api.anthropic.com"

abbrev pub api_key_env : Provider → String
api_key_env openai = "OPENAI_API_KEY"
api_key_env anthropic = "ANTHROPIC_API_KEY"
api_key_env _ = ""

abbrev pub default_model : Provider → String
default_model mock = "mock-small"
default_model ollama = "llama3.2"
default_model openai = "gpt-4o-mini"
default_model anthropic = "claude-3-5-haiku-latest"

pub record HttpCall : Type 0 where
  pub url : String
  pub payload : Value
  pub headers : List (String × String)

-- What the registry takes from outside: the environment, the network, JSON and the methods of `str`.
-- `to_str` is `str` of a value that is no text, `count` the natural number that a value is, if it is
-- one, and `is_zero` says which literals of numbers are false. `retries` is
-- AGENTOPS_PROVIDER_RETRIES.
pub record Registry : Type 0 where
  pub host : Host
  pub getenv : String → Option String
  pub retries : ℤ
  pub scheme : String → String
  pub rstrip : String → String
  pub loads : String → Option Value
  pub to_str : Value → String
  pub count : Value → Option ℕ
  pub is_zero : String → Bool
  pub post : HttpCall → ℕ → Attempt Value
  pub stream : HttpCall → ℕ → Response

-- value[key], value.get(key, d) and value[0]; `none` where Python raises.
abbrev pub get_item : String → Value → Option Value
get_item key (obj fs) = lookup key fs
get_item key _ = none

abbrev pub get_or : Value → String → Value → Option Value
get_or d key (obj fs) = some (default d (lookup key fs))
get_or d key _ = none

abbrev pub first_item : Value → Option Value
first_item (arr (cons v vs)) = some v
first_item _ = none

abbrev pub bind {ℓ} : {A B : Type ℓ} → Option A → (A → Option B) → Option B
bind none f = none
bind (some a) f = f a
