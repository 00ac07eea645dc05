-- ===== src/Examples/Toy.antt =====
-- Concrete stand-ins for what the model takes as parameters: numbers in hundredths for `f64`, JSON
-- values that are their own text, a file system that is a list of files, and a configuration.
use aquilo_offline.Base.{
  ℕ, ℤ, pos, negsuc, ◌+◌, ◌*◌, ◌/◌, pos_part, neg_part, ◌-ℤ◌, ◌+ℤ◌, leb_ℤ, max_ℤ, F64, true, not,
  ◌&&◌, Option, none, some, List, [], ◌∷◌, ◌++◌, Bytes, Str, codes, if◌then◌else◌, bytes_eq,
}
use aquilo_offline.Base.Decimal.{show_i64}
use aquilo_offline.Base.Json.{Json}
use aquilo_offline.Core.Reading.{ReadPayload}
use aquilo_offline.Onboard.Observe
use aquilo_offline.Onboard.Output.{OnboardOptions, Disk}
use aquilo_offline.Server.Config.{Config}
use aquilo_offline.Server.Handler
use aquilo_offline.Server.Runtime.{PersistedState, Loaded, found, Store}
use aquilo_offline.Store.{Codec, Files, missing}

-- A product and a quotient by a number, rounded to zero, and a sign.
abbrev pub times : ℤ → ℕ → ℤ
times (pos a) k = pos (a * k)
times (negsuc a) k = pos 0 -ℤ pos ((a + 1) * k)

abbrev pub over : ℤ → ℕ → ℤ
over (pos a) k = pos (a / k)
over (negsuc a) k = pos 0 -ℤ pos ((a + 1) / k)

abbrev pub signed : ℤ → ℤ → ℤ
signed x (pos n) = x
signed x (negsuc n) = pos 0 -ℤ x

abbrev pub magnitude : ℤ → ℕ
magnitude a = pos_part a + neg_part a

abbrev total : List ℤ → ℤ
total [] = pos 0
total (x ∷ xs) = x +ℤ total xs

instance abbrev pub hundredths : F64 ℤ
hundredths = record {
  of_i64 = λ n. times n 100;
  add = λ a b. a +ℤ b;
  sub = λ a b. a -ℤ b;
  mul = λ a b. signed (over (times a (magnitude b)) 100) b;
  div = λ a b. signed (over (times a 100) (magnitude b)) b;
  neg = λ a. pos 0 -ℤ a;
  max = max_ℤ;
  sum = total;
  round = λ a. times (over (a +ℤ signed (pos 50) a) 100) 100;
  as_i64 = λ a. over a 100;
  le = leb_ℤ;
  lt = λ a b. not (leb_ℤ b a);
  eq = λ a b. leb_ℤ a b && leb_ℤ b a;
  is_finite = λ a. true;
  debug = show_i64;
}

abbrev fields : List (Str × Str) → Str
fields [] = codes "}"
fields ((key, value) ∷ rest) = key ++ (codes ":" ++ (value ++ (codes "," ++ fields rest)))

abbrev elements : List Str → Str
elements [] = codes "]"
elements (value ∷ rest) = value ++ (codes "," ++ elements rest)

-- JSON values as their text, which has no fields to read.
abbrev pub texts : Json Str ℤ
texts = record {
  from_slice = λ bytes. some bytes;
  to_vec = λ v. some v;
  get = λ v key. none;
  at = λ v i. none;
  field = λ v key. [];
  as_str = λ v. some v;
  as_i64 = λ v. none;
  as_f64 = λ v. none;
  object = λ fs. codes "{" ++ fields fs;
  array = λ vs. codes "[" ++ elements vs;
  string = λ s. s;
  int = show_i64;
  float = show_i64;
}

-- A payload that is not empty is a reading of 15.02 cm at 3770 mV.
abbrev pub decode : Bytes → Option ReadPayload
decode [] = none
decode (c ∷ bytes) = some (record {
  sensor = some (codes "n4");
  version = none;
  read1 = some (pos 1502);
  battery = some (codes "3770");
  read_no = none;
  last_sent = none;
  amp1 = none;
  temp = none;
  raw = none;
})

-- A clock whose readings are all the same second.
abbrev pub parse_ts : Str → Option ℤ
parse_ts [] = none
parse_ts (c ∷ s) = some (pos c)

abbrev pub config : Config ℤ
config = record {
  receiver_id = codes "r1";
  sensor_id = codes "n4";
  mqtt_user = codes "u";
  mqtt_pass = codes "p";
  firmware_version = codes "1.2";
  sensor_name = codes "tank";
  radar_skip = pos 9;
  radar_repeat = pos 9;
  bind_addr = codes "0.0.0.0";
  listen_port = 1883;
  ping_interval_secs = 1200;
  data_dir = codes "data";
  history_max_len = 2;
  pump_out_drop_pct = pos 25;
  calibration = record { full_dist = pos 4000; empty_dist = pos 17800 };
  broker = none;
  state = record {
    lvl = pos 15020;
    pct = pos 60;
    bat = pos 83;
    days_left = pos 4;
    lvl_to_full = pos 110;
    lst_empty = codes "L";
    from = codes "node-4";
  };
}

-- A store that keeps the last state it was given.
abbrev pub memory : Store (Loaded ℤ) ℤ
memory = record { load = λ s. s; save = λ s p. (found p, true) }

abbrev pub server_env : Handler.Env (Loaded ℤ) Str ℤ
server_env = record {
  float = hundredths;
  json = texts;
  parse_ts = parse_ts;
  decode = decode;
  storage = memory;
  cfg = config;
  link = λ r. true;
}

-- A disk that is the list of what was written.
abbrev pub disk : Disk (List Bytes) ℤ
disk = record {
  parent = λ path. none;
  create_dir_all = λ w dir. w;
  write = λ w path bytes. (w ++ bytes ∷ [], true);
  save = λ w dir p. (w ++ p.lst_empty ∷ [], true);
}

abbrev pub options : OnboardOptions
options = record {
  bind_addr = codes "0.0.0.0";
  listen_port = 1883;
  out_config = codes "c.toml";
  data_dir = codes "data";
}

abbrev pub observe_env : Observe.Env Str (List Bytes) ℤ
observe_env = record {
  float = hundredths;
  json = texts;
  decode = decode;
  disk = disk;
  opts = options;
  accepts = λ bytes. true;
}

-- A codec that knows one state by the bytes 1, 2, 3, and nothing else.
abbrev known : PersistedState ℤ → Bytes → Option (PersistedState ℤ)
known p bytes = if bytes_eq bytes (1 ∷ 2 ∷ 3 ∷ []) then some p else none

abbrev pub codec : PersistedState ℤ → Codec ℤ
codec p = record { to_vec_pretty = λ state. some (1 ∷ 2 ∷ 3 ∷ []); from_slice = known p }

abbrev pub no_files : Files
no_files path = missing
