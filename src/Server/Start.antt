-- ===== src/Server/Start.antt =====
-- The start and the end of the process: InitDB of db/db.go, and main of main.go. How the calls of SQLite
-- and of net/http end is given: `none` is success, `some` the text of an error.
use cwmp_acs_go.Prelude.{
  String, Bool, true, false, ◌&&◌, ◌≡◌, ◌↔◌, arith, Option, none, some, [], ◌∷◌, ◌==◌,
  if◌then◌else◌,
}
use cwmp_acs_go.Go.Text.{texts}
use cwmp_acs_go.Server.Build.{Decoded, decoded, malformed}

-- The calls of InitDB, in their order; the journal mode is what SQLite answers.
pub record Opening : Type 0 where
  pub opened : Option String
  pub ping : Option String
  pub journal_mode : Decoded String
  pub busy_timeout : Option String
  pub device_table : Option String
  pub rpc_queue_table : Option String

-- `fatal` is log.Fatal: the process ends with this text.
pub data Start : Type 0 where
  fatal : String → Start
  ready : Start

infixl 5 ◌>>◌
-- What is done once a step has not ended the process.
abbrev pub ◌>>◌ : Start → Start → Start
fatal text >> next = fatal text
ready >> next = next

abbrev or_fatal : String → Option String → Start
or_fatal text none = ready
or_fatal text (some e) = fatal (texts (text ∷ e ∷ []))

abbrev wal_failed : String → String → Start
wal_failed mode e = fatal (texts ("Failed to enable WAL mode: mode=" ∷ mode ∷ " err=" ∷ e ∷ []))

abbrev pub in_wal_mode : Decoded String → Start
in_wal_mode (malformed e) = wal_failed "" e
in_wal_mode (decoded mode) = if mode == "wal" then ready else wal_failed mode "<nil>"

unfoldable pub init_db : Opening → Start
init_db o =
    or_fatal "Error opening database:" o.opened
    >> or_fatal "Error connecting to database:" o.ping
    >> in_wal_mode o.journal_mode
    >> or_fatal "Failed to set busy_timeout: " o.busy_timeout
    >> or_fatal "Create device table failed: " o.device_table
    >> or_fatal "Create rpc_queue table failed: " o.rpc_queue_table

-- How the process ends: with log.Fatal, which runs nothing more, or once CloseDB has run.
pub data Ended : Type 0 where
  died : String → Ended
  exited : Ended

abbrev ended_by : Start → Ended
ended_by (fatal text) = died text
ended_by ready = exited

-- main, for a process that is told to stop; `shutdown` is how srv.Shutdown ends. An error of the
-- listener or of CloseDB is only logged.
unfoldable pub main : Opening → Option String → Ended
unfolding init_db
main o shutdown = ended_by (init_db o >> or_fatal "Server forced to shutdown:" shutdown)

abbrev succeeded : Option String → Bool
succeeded none = true
succeeded (some e) = false

abbrev in_wal : Decoded String → Bool
in_wal (decoded mode) = mode == "wal"
in_wal (malformed e) = false

-- The process closes its database exactly if each call of InitDB succeeds, SQLite is in WAL mode, and
-- the server is shut down in time.
main-closes :
    (o : Opening) (shutdown : Option String)
    → (main o shutdown ≡ exited) ↔ (
        (succeeded o.opened
          && succeeded o.ping
          && in_wal o.journal_mode
          && succeeded o.busy_timeout
          && succeeded o.device_table
          && succeeded o.rpc_queue_table
          && succeeded shutdown)
        ≡ true)
unfolding main init_db
main-closes o shutdown = (λ h. ground arith, λ h. ground arith)
