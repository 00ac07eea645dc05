-- ===== src/Examples/Inputs.antt =====
-- Runs of the readers of log lines and of the command line.
use aquilo_offline.Base.{true, [], ◌∷◌, starts_with}
use aquilo_offline.Base.{
  bytes_eq, ℤ, ◌≡◌, refl, arith, false, some, none, codes, contains, from_utf8,
}
use aquilo_offline.Base.White.{trim, split_whitespace}
use aquilo_offline.Cli.{Args, ok, classify, parse_args}
use aquilo_offline.Cli.RoundTrip.{arguments, parse_args-arguments}
use aquilo_offline.Examples.Toy.{texts, server_env}
use aquilo_offline.Server.Firmware.{json_firmware, firmware_from_log}
use aquilo_offline.Server.Handler.{done, World, start, handle_publish}
use aquilo_offline.Server.Runtime.{Loaded, absent}
use aquilo_offline.Server.Topics.{new_topics}
use aquilo_offline.Server.Versions.{IsVersion, spaced-unechoed}

abbrev world : World (Loaded ℤ) ℤ
world = start server_env absent (codes "T")

-- The end of a MAC, which is no version for its colon.
mac : ¬ IsVersion (codes "a:b.c")
unfolding contains
mac v = let e : true ≡ false = v.no_mac in cc

-- The end of a MAC, a version, and another one behind it.
spaced-unechoed_example :
    (handle_publish server_env
        (new_topics (codes "r1")).log
        (codes "a:b.c 1.7_en 1.8")
        (codes "T")
        world
      ≡ (world, done))
    × (firmware_from_log texts (codes "a:b.c 1.7_en 1.8") ≡ some (codes "1.7_en"))
spaced-unechoed_example =
    spaced-unechoed server_env (codes "a:b.c 1.7_en 1.8") (codes "a:b.c 1.7_en 1.8") (codes "T")
      (codes "a:b.c" ∷ []) (codes "1.7_en") (codes "1.8" ∷ []) world (unfold json_firmware in refl)
      (unfold from_utf8 in refl) (unfold trim contains in refl) (unfold split_whitespace in refl)
      (mac, tt)
      (record {
        dotted = unfold contains in refl;
        no_mac = unfold contains in refl;
        short = omega arith;
      })

-- The mode `learn` with every option given.
abbrev asked : Args
asked = record {
  mode = codes "learn";
  config_path = codes "c.toml";
  data_dir = codes "d";
  bind_addr = codes "h";
  listen_port = 18831;
  upstream_host = codes "u";
  upstream_port = 1;
}

parse_args-arguments_example : parse_args none (some (codes "v")) (arguments asked) ≡ ok asked
unfolding starts_with
parse_args-arguments_example =
    parse_args-arguments none (some (codes "v")) asked (omega arith) (omega arith)
      (unfold classify bytes_eq in refl)
