-- ===== src/Protocol.antt =====
-- shared/protocol/protocol.go: what an agent and its mother say to each other. A field that Go
-- leaves out when it is empty is empty here.
use feast_watch.Prelude.{String, Bool, List}
use feast_watch.Prelude.Int.{ℤ}
use feast_watch.Prelude.Map.{Map}

-- `V` stands for float64.
pub record IngestRequest (V : Type 0) : Type 0 where
  pub server : String
  pub agent_version : String
  pub hostname : String
  pub ip : String
  pub os : String
  pub arch : String
  pub capabilities : List String
  pub update_error : String
  pub uninstall_error : String
  pub samples : Map String V

pub record IngestResponse : Type 0 where
  pub collectors : List String
  pub interval : ℤ
  pub desired_version : String
  pub uninstall : Bool
