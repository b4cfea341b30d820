-- ===== src/Logger.antt =====
-- internal/logger/logger.go. zap is a parameter: its two preset configurations, its encoders and the
-- build of a logger.
use live_stream_danmaku.Base.{[], Option, if◌then◌else◌, ◌==◌, list_eq, nat_eq}
use live_stream_danmaku.Text.{Text, codes}

-- Of `zap.Config` the fields of the encoder that are set; the others keep their presets.
pub record Config (TimeEncoder LevelEncoder Rest : Type 0) : Type 0 where
  pub encode_time : TimeEncoder
  pub encode_level : LevelEncoder
  pub time_key : Text
  pub caller_key : Text
  pub rest : Rest

pub record Zap (TimeEncoder LevelEncoder Rest Logger : Type 0) : Type 0 where
  pub new_production_config : Config TimeEncoder LevelEncoder Rest
  pub new_development_config : Config TimeEncoder LevelEncoder Rest
  pub iso8601_time_encoder : TimeEncoder
  pub capital_color_level_encoder : LevelEncoder
  pub build : Config TimeEncoder LevelEncoder Rest → Option Logger

module _ {TimeEncoder LevelEncoder Rest Logger : Type 0}
    (zap : Zap TimeEncoder LevelEncoder Rest Logger) where
  unfoldable pub log_config : Text → Config TimeEncoder LevelEncoder Rest
  log_config env =
      if env == codes "prod"
      then record zap.new_production_config { encode_time = zap.iso8601_time_encoder }
      else record zap.new_development_config {
        encode_level = zap.capital_color_level_encoder;
        time_key = [];
        caller_key = [];
      }

  -- `InitLogger`: the logger that becomes `Log` and the global one, or `none` where the program exits.
  unfoldable pub init_logger : Text → Option Logger
  unfolding log_config
  init_logger env = zap.build (log_config env)
