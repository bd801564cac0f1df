-- ===== src/Tests/Settings.antt =====
-- The checks of the configuration at concrete settings.
use distributed_caching.Base.{ℕ, ◌≡◌, ◌↔◌, none, arith}
use distributed_caching.Config.Defaults.{IsUsable}
use distributed_caching.Config.Validation.{IsValid, check_config, check_config_iff}
use distributed_caching.Floats.{Floats}
use distributed_caching.Tests.Cases.{usual_config}
use distributed_caching.Tests.Fixed.{thousandths}

instance abbrev fixed_point : Floats ℕ
fixed_point = thousandths

check_config_iff_example : (check_config usual_config ≡ none) ↔ IsValid usual_config
check_config_iff_example = check_config_iff usual_config

usual_config-IsUsable : IsUsable usual_config
usual_config-IsUsable = ground arith
