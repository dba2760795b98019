-- ===== src/Json.antt =====
-- JSON values, as `json.loads` returns them and `json.dumps` takes them: the inputs and outputs of
-- runs, the payloads of events and the members of secrets (`encode`, `decode` and `redact` in
-- src/agentops/service.py and src/agentops/security.py). A number is kept by its literal.
use agentops_control_plane.Base.{Bool, String}

mutual
  pub data Value : Type 0 where
    obj : Fields → Value
    arr : Items → Value
    text : String → Value
    num : String → Value
    bool : Bool → Value
    null : Value

  pub data Fields : Type 0 where
    end : Fields
    field : String → Value → Fields → Fields

  pub data Items : Type 0 where
    nil : Items
    cons : Value → Items → Items
