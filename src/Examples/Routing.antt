-- ===== src/Examples/Routing.antt =====
-- The compute tiers of two deployments.
use google_meridian_mcp_serv.Prelude.{refl, none, some, true}
use google_meridian_mcp_serv.Domain.Config.{RuntimeConfig, check}
use google_meridian_mcp_serv.Execution.Routing.{SizeFeatures, resolve_tier}
use google_meridian_mcp_serv.Execution.Routing.Laws.{HasWorker, resolve_tier-HasWorker}

abbrev cloud_config : RuntimeConfig
cloud_config = record {
  transport = "stdio";
  persistence_backend = "gcs";
  local_models_root = none;
  gcs_bucket = some "bucket";
  gcs_models_prefix = some "models";
  result_cache_enabled = true;
  result_cache_ttl_seconds = some 900;
  optimization_tier = "cloud_auto";
  optimization_max_parallel = 2;
  optimization_poll_interval = 5_000_000;
  cloud_run_project = some "project";
  cloud_run_region = some "region";
  cloud_run_job_cpu = some "cpu-job";
  cloud_run_job_gpu = some "gpu-job";
}

abbrev features : SizeFeatures
features = record {
  n_geos = 10;
  n_time_units = 100;
  n_channels = 5;
  n_posterior_samples = 1000;
  n_models = none;
}

resolve_tier-HasWorker_example : HasWorker cloud_config "cloud_cpu"
unfolding check resolve_tier
resolve_tier-HasWorker_example =
    resolve_tier-HasWorker cloud_config 5_000_000 "auto" "cloud_cpu" refl refl
