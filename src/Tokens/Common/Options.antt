-- ===== src/Tokens/Common/Options.antt =====
-- tokens/common/views/utils.go: the options that select a TMS.
use fabric_x_samples.Prelude.{Option, none, some, List, [], ◌∷◌, ◌++◌}
use fabric_x_samples.Tokens.Types.{TmsId, ServiceOption, TxOption}

-- `ServiceOpts`
abbrev pub service_opts : Option TmsId → List ServiceOption → List ServiceOption
service_opts none opts = [] ++ opts
service_opts (some tms) opts = (ServiceOption.with_tmsid tms ∷ []) ++ opts

-- `TxOpts`
abbrev pub tx_opts : Option TmsId → List TxOption → List TxOption
tx_opts none opts = [] ++ opts
tx_opts (some tms) opts = (TxOption.with_tmsid tms ∷ []) ++ opts
