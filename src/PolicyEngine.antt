-- ===== src/PolicyEngine.antt =====
-- crates/policy-engine/src/lib.rs: the error and the verdict of the Policy Engine. No code of the
-- repository makes a decision yet.
use ajar_gateway.Text.{Text, codes}

pub data PolicyEngineError : Type 0 where
  invalid_policy : PolicyEngineError

abbrev pub policy_engine_error_text : PolicyEngineError → Text
policy_engine_error_text invalid_policy = codes "policy document invalid"

pub data PolicyVerdict : Type 0 where
  allow deny : PolicyVerdict
