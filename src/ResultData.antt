-- ===== src/ResultData.antt =====
-- common/common.go: the result that a node's action reports to the engine.
use nitejaguar.Base.{ℕ, Bool, Option, List, String, Text}
use nitejaguar.Value.{Value}

-- type ResultData. A time is a number, 0 for the zero time; `condition_error` is `none` for "".
pub record ResultData : Type 0 where
  pub result_id : String
  pub workflow_id : String
  pub execution_id : String
  pub action_id : String
  pub action_type : String
  pub action_name : String
  pub executor_id : String
  pub tenant_id : String
  pub created_at : ℕ
  pub payload : Value
  pub condition_results : List (String × Bool)
  pub nexts : List String
  pub condition_error : Option Text
  pub attempt : ℕ
  pub retrying : Bool
