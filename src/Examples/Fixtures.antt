-- ===== src/Examples/Fixtures.antt =====
-- A small fleet, and a digest.
use feast_watch.Prelude.{ℕ, ◌+◌, [], ◌∷◌, leb, if◌then◌else◌, refl, arith}
use feast_watch.Mother.Settings.{default_settings}
use feast_watch.Mother.Store.Tables.{Server, RollupKey, Tables, Arithmetic}
use feast_watch.Mother.Api.State.{Api}
use feast_watch.Live.{minute}
use feast_watch.Shared.Checksum.{Bytes}
use feast_watch.Shared.Checksum.RoundTrip.{IsDigest}

abbrev pub naturals : Arithmetic ℕ
naturals = record {
  min = λ a b. if leb a b then a else b;
  max = λ a b. if leb a b then b else a;
  add = λ a b. a + b;
}

-- A server that pushed at second 100 and one that never did, asked to leave at second 90.
abbrev pub web : Server
web = record {
  id = 1;
  name = "web";
  token = "w";
  collectors = "cpu" ∷ [];
  hostname = "web-1";
  ip = "10.0.0.4";
  os = "linux";
  arch = "amd64";
  agent_version = "1";
  last_push = 100;
  capabilities = "cpu" ∷ [];
  desired_version = "";
  update_error = "";
  uninstall_requested_at = 0;
  uninstall_error = "";
  created_at = 50;
}

abbrev pub gone : Server
gone = record web { id = 2; name = "gone"; token = "g"; last_push = 0; uninstall_requested_at = 90 }

abbrev pub cpu_minute : RollupKey
cpu_minute = record { server_id = 1; metric = "cpu.pct"; window_start = 60 }

abbrev pub fleet : Tables ℕ
fleet = record {
  servers = web ∷ gone ∷ [];
  rollup_1m = (cpu_minute, record { min = 3; max = 5; sum = 8; cnt = 2 }) ∷ [];
  rollup_1h = [];
  server_groups = record { id = 7; name = "edge"; created_at = 60 } ∷ [];
  server_group_members = record { group_id = 7; server_id = 1 } ∷ [];
}

abbrev pub api : Api ℕ
api = record {
  tables = fleet;
  live = record {
    window = minute;
    series = (1, ("cpu.pct", record { ts = 100; value = 5 } ∷ []) ∷ []) ∷ [];
  };
  settings = default_settings;
  last_push = [];
}

-- 32 bytes, as a digest has.
abbrev pub digest : Bytes
digest =
    0x1a ∷ 0x1a ∷ 0x1a ∷ 0x1a ∷ 0x1a ∷ 0x1a ∷ 0x1a ∷ 0x1a ∷ 0x1a ∷ 0x1a ∷ 0x1a ∷ 0x1a ∷ 0x1a ∷ 0x1a
    ∷ 0x1a ∷ 0x1a ∷ 0x1a ∷ 0x1a ∷ 0x1a ∷ 0x1a ∷ 0x1a ∷ 0x1a ∷ 0x1a ∷ 0x1a ∷ 0x1a ∷ 0x1a ∷ 0x1a
    ∷ 0x1a ∷ 0x1a ∷ 0x1a ∷ 0x1a ∷ 0x1a ∷ []

pub digest-IsDigest : IsDigest digest
digest-IsDigest = record {
  bytes = (
    omega arith,
    (
      omega arith,
      (
        omega arith,
        (
          omega arith,
          (
            omega arith,
            (
              omega arith,
              (
                omega arith,
                (
                  omega arith,
                  (
                    omega arith,
                    (
                      omega arith,
                      (
                        omega arith,
                        (
                          omega arith,
                          (
                            omega arith,
                            (
                              omega arith,
                              (
                                omega arith,
                                (
                                  omega arith,
                                  (
                                    omega arith,
                                    (
                                      omega arith,
                                      (
                                        omega arith,
                                        (
                                          omega arith,
                                          (
                                            omega arith,
                                            (
                                              omega arith,
                                              (
                                                omega arith,
                                                (
                                                  omega arith,
                                                  (
                                                    omega arith,
                                                    (
                                                      omega arith,
                                                      (
                                                        omega arith,
                                                        (
                                                          omega arith,
                                                          (
                                                            omega arith,
                                                            (
                                                            omega arith,
                                                            (omega arith, (omega arith, tt)),
                                                            ),
                                                          ),
                                                        ),
                                                      ),
                                                    ),
                                                  ),
                                                ),
                                              ),
                                            ),
                                          ),
                                        ),
                                      ),
                                    ),
                                  ),
                                ),
                              ),
                            ),
                          ),
                        ),
                      ),
                    ),
                  ),
                ),
              ),
            ),
          ),
        ),
      ),
    ),
  );
  size = refl;
}
