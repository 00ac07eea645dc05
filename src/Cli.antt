-- ===== src/Cli.antt =====
-- `Args` of aquilo-server/src/main.rs. The two environment variables are arguments.
pub mod Compose
pub mod RoundTrip
use aquilo_offline.Base.{
  ℕ, Bool, true, false, ◌||◌, Option, none, some, List, [], ◌∷◌, Str, codes, bytes_eq, starts_with,
  if◌then◌else◌, unwrap_or,
}
use aquilo_offline.Base.Decimal.{parse_u16}
use aquilo_offline.Onboard.Output.{OnboardOptions}

pub record Args : Type 0 where
  pub mode : Str
  pub config_path : Str
  pub data_dir : Str
  pub bind_addr : Str
  pub listen_port : ℕ
  pub upstream_host : Str
  pub upstream_port : ℕ

pub data ArgError : Type 0 where
  missing_value bad_port unknown_flag : Str → ArgError

pub data ParseArgs : Type 0 where
  ok : Args → ParseArgs
  err : ArgError → ParseArgs

unfoldable pub default_upstream_host : Str
default_upstream_host = codes "57.128.198.238"

unfoldable pub default_args : Option Str → Option Str → Args
unfolding default_upstream_host
default_args aquilo_config upstream_host = record {
  mode = codes "serve";
  config_path = unwrap_or aquilo_config (codes "config.toml");
  data_dir = codes "data";
  bind_addr = codes "0.0.0.0";
  listen_port = 1883;
  upstream_host = unwrap_or upstream_host default_upstream_host;
  upstream_port = 1883;
}

-- The arms of the `match`: a flag with a text, a flag with a port, another flag, or the mode.
pub data Arg : Type 0 where
  config data_dir_flag bind upstream_host_flag listen_port_flag upstream_port_flag unknown : Arg
  positional : Arg

unfoldable pub classify : Str → Arg
classify arg =
    if bytes_eq arg (codes "-c") || bytes_eq arg (codes "--config")
    then config
    else if bytes_eq arg (codes "--data-dir")
    then data_dir_flag
    else if bytes_eq arg (codes "--bind")
    then bind
    else if bytes_eq arg (codes "--listen-port")
    then listen_port_flag
    else if bytes_eq arg (codes "--upstream-host")
    then upstream_host_flag
    else if bytes_eq arg (codes "--upstream-port")
    then upstream_port_flag
    else if starts_with arg (codes "-")
    then unknown
    else positional

-- A value is set, or refused as a port.
unfoldable pub set_flag : Arg → Str → Args → ParseArgs
set_flag config v a = ok (record a { config_path = v })
set_flag data_dir_flag v a = ok (record a { data_dir = v })
set_flag bind v a = ok (record a { bind_addr = v })
set_flag upstream_host_flag v a = ok (record a { upstream_host = v })
set_flag listen_port_flag v a = elim (parse_u16 v) [
  | none ↦ err (bad_port v)
  | some n ↦ ok (record a { listen_port = n })
]
set_flag upstream_port_flag v a = elim (parse_u16 v) [
  | none ↦ err (bad_port v)
  | some n ↦ ok (record a { upstream_port = n })
]
set_flag unknown v a = err (unknown_flag v)
set_flag positional v a = ok (record a { mode = v })

abbrev takes_value : Arg → Bool
takes_value unknown = false
takes_value positional = false
takes_value _ = true

-- What a flag without its value is called in the error: `-c` is `--config` there.
abbrev flag_name : Arg → Str → Str
flag_name config arg = codes "--config"
flag_name _ arg = arg

-- The loop over the arguments that are left.
unfoldable pub parse_loop : List Str → Args → ParseArgs
unfolding classify set_flag
parse_loop [] a = ok a
parse_loop (arg ∷ []) a =
    if takes_value (classify arg)
    then err (missing_value (flag_name (classify arg) arg))
    else set_flag (classify arg) arg a
parse_loop (arg ∷ v ∷ rest) a = elim (takes_value (classify arg)) [
  | true ↦ elim (set_flag (classify arg) v a) [ err x ↦ err x | ok a' ↦ parse_loop rest a' ]
  | false ↦ elim (set_flag (classify arg) arg a) [
    | err x ↦ err x
    | ok a' ↦ parse_loop (v ∷ rest) a'
  ]
]

unfoldable pub parse_args : Option Str → Option Str → List Str → ParseArgs
unfolding parse_loop default_args
parse_args aquilo_config upstream_host args =
    parse_loop args (default_args aquilo_config upstream_host)

unfoldable pub onboard_options : Args → OnboardOptions
onboard_options a = record {
  bind_addr = a.bind_addr;
  listen_port = a.listen_port;
  out_config = a.config_path;
  data_dir = a.data_dir;
}

-- aquilo-server/src/onboard.rs
pub record LearnOptions : Type 0 where
  pub onboard : OnboardOptions
  pub upstream_host : Str
  pub upstream_port : ℕ

unfoldable pub learn_options : Args → LearnOptions
unfolding onboard_options
learn_options a = record {
  onboard = onboard_options a;
  upstream_host = a.upstream_host;
  upstream_port = a.upstream_port;
}

-- What `main` runs for a mode.
pub data Run : Type 0 where
  serve : Str → Run
  learn : LearnOptions → Run
  observe : OnboardOptions → Run
  unknown_mode : Str → Run

unfoldable pub dispatch : Args → Run
unfolding onboard_options learn_options
dispatch a =
    if bytes_eq a.mode (codes "serve")
    then serve a.config_path
    else if bytes_eq a.mode (codes "learn")
    then learn (learn_options a)
    else if bytes_eq a.mode (codes "observe")
    then observe (onboard_options a)
    else unknown_mode a.mode
