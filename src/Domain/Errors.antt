-- ===== src/Domain/Errors.antt =====
-- domain/errors.py, and the error classes of the other modules: one constructor for each class,
-- with the arguments that it is built from. A message text is not modelled where it only words
-- these arguments.
use google_meridian_mcp_serv.Prelude.{String, List}
use google_meridian_mcp_serv.Domain.Run.{RunStatus}

pub data McpError : Type 0 where
  model_not_found : (model_id : String) → McpError
  backend_unavailable authentication_failed : (backend : String) → McpError
  invalid_filters : (reason : String) → McpError
  invalid_output_type : (output_type : String) (valid_types : List String) → McpError
  missing_model_data : (model_id reason : String) → McpError
  dataset_not_available : (model_id dataset : String) → McpError
  metric_not_supported : (model_id output_type reason : String) → McpError
  objective_not_available : (purpose : String) → McpError
  unsupported_model_format : (path extension : String) → McpError
  invalid_full_funnel_model : (reason : String) → McpError
  worker_failed worker_timeout internal_error : (message : String) → McpError
  optimization_failed worker_lost : (message : String) → McpError
  run_not_found : (run_id : String) → McpError
  result_not_ready : (run_id : String) (status : RunStatus) → McpError
  invalid_optimization_config : (reason : String) → McpError

-- `error_code` of each class.
unfoldable pub error_code : McpError → String
error_code (McpError.model_not_found m) = "model_not_found"
error_code (McpError.backend_unavailable b) = "backend_unavailable"
error_code (McpError.authentication_failed b) = "authentication_failed"
error_code (McpError.invalid_filters r) = "invalid_filters"
error_code (McpError.invalid_output_type t v) = "invalid_output_type"
error_code (McpError.missing_model_data m r) = "missing_model_data"
error_code (McpError.dataset_not_available m d) = "dataset_not_available"
error_code (McpError.metric_not_supported m t r) = "metric_not_supported"
error_code (McpError.objective_not_available p) = "objective_not_available"
error_code (McpError.unsupported_model_format p e) = "unsupported_model_format"
error_code (McpError.invalid_full_funnel_model r) = "invalid_full_funnel_model"
error_code (McpError.worker_failed m) = "worker_failed"
error_code (McpError.worker_timeout m) = "worker_timeout"
error_code (McpError.internal_error m) = "internal_error"
error_code (McpError.optimization_failed m) = "optimization_failed"
error_code (McpError.worker_lost m) = "worker_lost"
error_code (McpError.run_not_found r) = "optimization_run_not_found"
error_code (McpError.result_not_ready r s) = "optimization_not_ready"
error_code (McpError.invalid_optimization_config r) = "invalid_optimization_config"
