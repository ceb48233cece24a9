-- ===== src/Lib.antt =====
-- The CWMP (TR-069) auto-configuration server: a device posts SOAP messages to /cwmp; an Inform opens
-- a session, which a cookie names; the server answers, and once the device posts an empty message it
-- sends the RPCs that wait for the device in the database, one for each post, until none is left.
--
-- Parts, and where they are modelled (a Go function `DoThis` is the definition `do_this`):
-- - internal/cwmp/cwmp_structs.go: Cwmp/Structs (the messages; an interface value is the data type
--   `Message`); internal/cwmp/cwmp_versions.go: Cwmp/Versions; internal/errors/errors.go: Cwmp/Errors
--   (a Go pair of a value and an error is `Result`).
-- - internal/xml/structs.go: Xml/Structs; internal/xml/parser.go: Xml/Envelope (ParseSOAPEnvelope, on
--   the tokens that the decoder of encoding/xml delivers), Xml/Namespaces, Xml/Header;
--   internal/xml/dom/dom.go: Xml/Dom (Serialize up to the tokens that it hands to the encoder).
-- - internal/xml/cwmp_1_4/parsers.go: Parsers/Arrays (the five list parsers, which follow one course),
--   Parsers/Responses, Parsers/InformParser, Parsers/Table; internal/xml/cwmp_1_4/generators.go:
--   Generators.
-- - db/db.go and db/db_structs.go: Server/Database (tables as lists of rows).
-- - internal/events: Server/Broker. internal/session/session.go: Server/Session (a `*SessionInfo` is
--   an address, since two maps share the sessions).
-- - db/db.go's InitDB and main of main.go: Server/Start.
-- - internal/controllers/cwmp_controller.go: Server/Rpc (outgoing RPCs, responses, requests),
--   Server/Incoming (handleIncomingMessage), Server/Cwmp (CwmpHandler; Server/Cwmp/Reachable has the
--   steps of the server: requests, and what other parts do in between; Server/Serving the runs in which
--   the database never fails).
-- - internal/controllers/api_controller.go: Server/Build (buildCwmpMessageFromParts) and Server/Api
--   (ApiHandler and the connection requests); internal/controllers/events_controller.go: Server/Events;
--   internal/controllers/status_controller.go and the router of main.go: Server/Router.
-- - Go/* is what the program uses of Go's strings, strconv, regexp and fmt.Sscanf; Prelude the helpers
--   of all; Tests the tests.
--
-- State is passed explicitly: `World` holds the database, the sessions and the broker, and a handler
-- maps a request and a world to an outcome and a world. A panic is an outcome; the state that it leaves
-- is the one at the point of the panic. One request is served at a time: the Go program does not lock
-- its maps of sessions.
--
-- From outside come, as arguments: the JSON decoder (`Json`, one function for each struct that is
-- decoded) and json.Marshal, how an HTTP GET ends and the text of an error of the database driver
-- (`Env`), strconv.Quote and the orders in which `range` visits a map (`Runtime`), the UUID and the time
-- of a request (`Request`, `ApiCall`), and how the calls of SQLite end (`outcomes` of `Db`). What the
-- rest of the server and the client do while EventsHandler runs is a list of turns.
-- Parsers/Arrays/RoundTrip takes how encoding/xml reads an attribute that was written.
--
-- The abstract views: Server/Database/Fifo reads the table rpc_queue as one queue of messages per
-- device, which Server/Database/Fifo/Refines and Server/Rpc/Fifo relate to the operations;
-- Server/Events/Stream has the bounded channel of a single client. A database is settled
-- (Server/Rpc/Settled) when no call of it is to fail, the ids of the queue's rows rise up to the next one,
-- and the message of every row can be built and has been handed out at most six times.
--
-- Fuel: the loop of findOutgoingRpc runs on one more than the rows of the queue and the listed outcomes
-- of the database; each round that goes on deletes a row or uses up an outcome. `format_uint` writes at
-- most 20 digits, which is what a 64-bit number has.
--
-- Not modelled: the text that the XML encoder makes of the tokens; logging; the request's context;
-- the columns for times, which nothing reads; the listener and the signals of main.go, and what CloseDB
-- does to the file; the headers of the HTTP responses, but for the session cookie.
pub mod Prelude
pub mod Go
pub mod Cwmp
pub mod Xml
pub mod Parsers
pub mod Generators
pub mod Server
pub mod Tests
