-- ===== src/Server/Topics.antt =====
-- aquilo-server/src/topics.rs
use aquilo_offline.Base.{Str, codes, ◌++◌}

pub record Topics : Type 0 where
  pub version : Str
  pub state : Str
  pub radar_params : Str
  pub read : Str
  pub log : Str
  pub connection : Str
  pub ping : Str

-- `Topics::new`
unfoldable pub new_topics : Str → Topics
new_topics rid = record {
  version = codes "/version/czujnik_szamba/" ++ rid;
  state = codes "/users/" ++ (rid ++ codes "/state");
  radar_params = codes "/users/" ++ (rid ++ (codes "/receivers/" ++ (rid ++ codes "/radarParams")));
  read = codes "/users/" ++ (rid ++ (codes "/sensors/" ++ (rid ++ codes "/read")));
  log = codes "/users/" ++ (rid ++ (codes "/sensors/" ++ (rid ++ codes "/log")));
  connection = codes "/users/" ++ (rid ++ (codes "/sensors/" ++ (rid ++ codes "/connection")));
  ping = codes "/ping";
}
