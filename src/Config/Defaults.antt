-- ===== src/Config/Defaults.antt =====
-- config/config.go: variables that are not set, or hold no number.
use alma_backend_task.Prelude.{
  String, ◌≡◌, refl, ◌⊎◌, inl, inr, Option, none, ite, String-discrete, if_pos,
}
use alma_backend_task.Value.{ℤ}
use alma_backend_task.Config.{default_config, or_default, or_parsed, number_or, load_config}

or_default-unset : (v default : String) → v ≡ "" → or_default v default ≡ default
or_default-unset v default e = if_pos (String-discrete v "") e default v

either : {P : Type 0} (d : Dec P) (n : ℤ) → ite d n n ≡ n
either (yes p) n = refl
either (no q) n = refl

module _ (getenv : String → String) (atoi : String → Option ℤ) where
  -- The variable is not set, or holds no number.
  abbrev pub IsUnusable : String → Type 0
  IsUnusable k = (getenv k ≡ "") ⊎ (atoi (getenv k) ≡ none)

  number_or-unusable :
      (k : String) (default : ℤ) → IsUnusable k → number_or atoi (getenv k) default ≡ default
  number_or-unusable k default (inl e) =
      if_pos (String-discrete (getenv k) "") e default (or_parsed (atoi (getenv k)) default)
  number_or-unusable k default (inr e) = rw e (either (String-discrete (getenv k) "") default)

  -- If the path and the log level are not set, and each of the three numbers is not set or holds no
  -- number, `LoadConfig` gives what `DefaultConfig` gives.
  pub load_config-default :
      getenv "DATA_PATH" ≡ ""
      → getenv "LOG_LEVEL" ≡ ""
      → IsUnusable "HTTP_PORT"
      → IsUnusable "METRICS_PORT"
      → IsUnusable "BATCH_FLUSH_THRESHOLD"
      → load_config getenv atoi ≡ default_config
  unfolding load_config default_config
  load_config-default path level http metrics threshold =
      rw
        (
          or_default-unset (getenv "DATA_PATH") _ path,
          or_default-unset (getenv "LOG_LEVEL") _ level,
          number_or-unusable "HTTP_PORT" _ http,
          number_or-unusable "METRICS_PORT" _ metrics,
          number_or-unusable "BATCH_FLUSH_THRESHOLD" _ threshold,
        )
        refl
