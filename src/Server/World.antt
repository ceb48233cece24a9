-- ===== src/Server/World.antt =====
-- The state of the process, and what a handler gets and gives.
use cwmp_acs_go.Prelude.{ℕ, String, Option, List}
use cwmp_acs_go.Go.Runtime.{Runtime}
use cwmp_acs_go.Xml.Envelope.{TokenStream}
use cwmp_acs_go.Xml.Dom.{Token}
use cwmp_acs_go.Server.Broker.{Event, Broker}
use cwmp_acs_go.Server.Build.{Json, Decoded}
use cwmp_acs_go.Server.Database.{Db}
use cwmp_acs_go.Server.Session.{Sessions}

-- How an HTTP GET ends: at the creation of the request, at its sending, or with a status and, where
-- the body cannot be read, an error.
pub data Get : Type 0 where
  not_created : String → Get
  not_sent : String → Get
  answered : ℕ → Option String → Get

-- What the program takes from outside: the runtime, encoding/json, the HTTP client, and the text of an
-- error of the database driver.
pub record Env : Type 0 where
  pub go : Runtime
  pub json : Json
  pub marshal : Event → Decoded String
  pub get : String → Get
  pub driver_error : String

pub record World : Type 0 where
  pub db : Db
  pub sessions : Sessions
  pub broker : Broker

pub data Body : Type 0 where
  unreadable : Body
  empty : Body
  document : TokenStream → Body

pub record Request : Type 0 where
  -- the value of the session cookie
  pub cookie : Option String
  pub body : Body
  -- the UUID that this request draws, if it draws one
  pub uuid : String
  pub now : ℕ

pub data Content : Type 0 where
  none : Content
  plain : String → Content
  xml : List Token → Content
  json : List (String × String) → Content

pub record Response : Type 0 where
  pub status : ℕ
  pub set_cookie : Option String
  pub content : Content

-- A handler replies or panics; net/http recovers from the panic and drops the connection.
pub data Outcome : Type 0 where
  reply : Response → Outcome
  panic : Outcome
