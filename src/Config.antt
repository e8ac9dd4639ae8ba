-- ===== src/Config.antt =====
-- config/config.go. The environment and `strconv.Atoi` are parameters: a variable that is not set
-- reads as the empty text, and `atoi` gives `none` where it gives an error.
pub mod Defaults
use alma_backend_task.Prelude.{String, Option, none, some, ite, String-discrete}
use alma_backend_task.Value.{ℤ, pos}

pub record Config : Type 0 where
  pub data_path : String
  pub http_port : ℤ
  pub metrics_port : ℤ
  pub log_level : String
  pub batch_flush_threshold : ℤ

unfoldable pub default_config : Config
default_config = record {
  data_path = "data/ebpf_spans.json";
  http_port = pos 8080;
  metrics_port = pos 9090;
  log_level = "info";
  batch_flush_threshold = pos 0;
}

-- `if v := os.Getenv(k); v != "" { field = v }`
abbrev pub or_default : String → String → String
or_default v default = ite (String-discrete v "") default v

abbrev pub or_parsed : Option ℤ → ℤ → ℤ
or_parsed none default = default
or_parsed (some n) default = n

-- The same for a number: what `Atoi` refuses changes nothing.
abbrev pub number_or : (String → Option ℤ) → String → ℤ → ℤ
number_or atoi v default = ite (String-discrete v "") default (or_parsed (atoi v) default)

unfoldable pub load_config : (String → String) → (String → Option ℤ) → Config
unfolding default_config
load_config getenv atoi = record {
  data_path = or_default (getenv "DATA_PATH") default_config.data_path;
  http_port = number_or atoi (getenv "HTTP_PORT") default_config.http_port;
  metrics_port = number_or atoi (getenv "METRICS_PORT") default_config.metrics_port;
  log_level = or_default (getenv "LOG_LEVEL") default_config.log_level;
  batch_flush_threshold =
      number_or atoi (getenv "BATCH_FLUSH_THRESHOLD") default_config.batch_flush_threshold;
}

pub data SlogLevel : Type 0 where
  level_debug level_info level_warn level_error : SlogLevel

unfoldable pub slog_level : Config → SlogLevel
slog_level c = ite (String-discrete c.log_level "debug") level_debug (
    ite (String-discrete c.log_level "warn") level_warn
      (ite (String-discrete c.log_level "error") level_error level_info))
