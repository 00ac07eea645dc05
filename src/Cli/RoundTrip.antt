-- ===== src/Cli/RoundTrip.antt =====
-- Every choice of options of aquilo-server/src/main.rs can be given by arguments.
use aquilo_offline.Base.{
  ℕ, ◌<◌, ◌≡◌, refl, ap, ◌∙◌, true, Option, List, [], ◌∷◌, Str, codes, bytes_eq,
}
use aquilo_offline.Base.Decimal.{show_ℕ, parse_u16-show_ℕ}
use aquilo_offline.Cli.{
  Args, Arg, config, data_dir_flag, bind, listen_port_flag, upstream_host_flag, upstream_port_flag,
  takes_value, ok, positional, classify, set_flag, parse_loop, parse_args, default_args,
}

-- All flags with their values, and then the mode.
abbrev pub arguments : Args → List Str
arguments a =
    codes "--config"
    ∷ a.config_path
    ∷ codes "--data-dir"
    ∷ a.data_dir
    ∷ codes "--bind"
    ∷ a.bind_addr
    ∷ codes "--listen-port"
    ∷ show_ℕ a.listen_port
    ∷ codes "--upstream-host"
    ∷ a.upstream_host
    ∷ codes "--upstream-port"
    ∷ show_ℕ a.upstream_port
    ∷ a.mode
    ∷ []

-- A flag with a value that is set.
parse_loop-flag :
    (flag v : Str) (rest : List Str) (arg : Arg) (a b : Args)
    → classify flag ≡ arg
    → takes_value arg ≡ true
    → set_flag arg v a ≡ ok b
    → parse_loop (flag ∷ v ∷ rest) a ≡ parse_loop rest b
unfolding parse_loop
parse_loop-flag flag v rest arg a b c t h =
    let takes : takes_value (classify flag) ≡ true = ap takes_value c ∙ t in
    let set : set_flag (classify flag) v a ≡ ok b = ap (λ x. set_flag x v a) c ∙ h in
    rw (takes, parse_loop, set) refl

set_flag-listen_port :
    (n : ℕ) (a : Args)
    → n < 65536
    → set_flag listen_port_flag (show_ℕ n) a ≡ ok (record a { listen_port = n })
unfolding set_flag
set_flag-listen_port n a h = rw (parse_u16-show_ℕ n h, set_flag) refl

set_flag-upstream_port :
    (n : ℕ) (a : Args)
    → n < 65536
    → set_flag upstream_port_flag (show_ℕ n) a ≡ ok (record a { upstream_port = n })
unfolding set_flag
set_flag-upstream_port n a h = rw (parse_u16-show_ℕ n h, set_flag) refl

parse_loop-mode :
    (mode : Str) (a : Args)
    → classify mode ≡ positional
    → parse_loop (mode ∷ []) a ≡ ok (record a { mode = mode })
unfolding parse_loop set_flag
parse_loop-mode mode a h = rw h refl

-- Options whose ports fit, and whose mode is no flag, are read back from their arguments, whatever the
-- environment says.
pub parse_args-arguments :
    (aquilo_config upstream_host : Option Str) (a : Args)
    → a.listen_port < 65536
    → a.upstream_port < 65536
    → classify a.mode ≡ positional
    → parse_args aquilo_config upstream_host (arguments a) ≡ ok a
unfolding parse_args set_flag classify bytes_eq
parse_args-arguments aquilo_config upstream_host a h k m =
    let a0 = default_args aquilo_config upstream_host in
    let a1 : Args = record a0 { config_path = a.config_path } in
    let a2 : Args = record a1 { data_dir = a.data_dir } in
    let a3 : Args = record a2 { bind_addr = a.bind_addr } in
    let a4 : Args = record a3 { listen_port = a.listen_port } in
    let a5 : Args = record a4 { upstream_host = a.upstream_host } in
    let a6 : Args = record a5 { upstream_port = a.upstream_port } in
    let r6 = a.mode ∷ [] in
    let r5 = codes "--upstream-port" ∷ show_ℕ a.upstream_port ∷ r6 in
    let r4 = codes "--upstream-host" ∷ a.upstream_host ∷ r5 in
    let r3 = codes "--listen-port" ∷ show_ℕ a.listen_port ∷ r4 in
    let r2 = codes "--bind" ∷ a.bind_addr ∷ r3 in
    let r1 = codes "--data-dir" ∷ a.data_dir ∷ r2 in
    parse_loop-flag (codes "--config") a.config_path r1 config a0 a1 refl refl refl
    ∙ parse_loop-flag (codes "--data-dir") a.data_dir r2 data_dir_flag a1 a2 refl refl refl
    ∙ parse_loop-flag (codes "--bind") a.bind_addr r3 bind a2 a3 refl refl refl
    ∙ parse_loop-flag (codes "--listen-port") _ r4 listen_port_flag a3 a4 refl refl
        (set_flag-listen_port a.listen_port a3 h)
    ∙ parse_loop-flag (codes "--upstream-host") a.upstream_host r5 upstream_host_flag a4 a5 refl
        refl refl
    ∙ parse_loop-flag (codes "--upstream-port") _ r6 upstream_port_flag a5 a6 refl refl
        (set_flag-upstream_port a.upstream_port a5 k)
    ∙ parse_loop-mode a.mode a6 m
