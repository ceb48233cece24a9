-- ===== src/Server/Router.antt =====
-- The router of main.go, and StatusHandler of internal/controllers/status_controller.go.
pub mod Table
use cwmp_acs_go.Prelude.{String, List, [], ◌∷◌, ◌==◌, if◌then◌else◌}
use cwmp_acs_go.Server.World.{Response, Content, plain}
use cwmp_acs_go.Server.Cwmp.{error_text}

-- The four handler functions.
pub data Handler : Type 0 where
  cwmp status api events : Handler

pub record Route : Type 0 where
  pub path : String
  pub method : String
  pub handler : Handler

abbrev pub routing_table : List Route
routing_table =
    record { path = "/cwmp"; method = "POST"; handler = cwmp }
    ∷ record { path = "/status"; method = "GET"; handler = status }
    ∷ record { path = "/api"; method = "POST"; handler = api }
    ∷ record { path = "/events"; method = "GET"; handler = events }
    ∷ []

-- What becomes of a request: a handler is called, or the router answers itself.
pub data Routed : Type 0 where
  calls : Handler → Routed
  answers : Response → Routed

abbrev pub method_not_allowed : Response
method_not_allowed = error_text 405 "Method not allowed"

-- http.NotFound
abbrev pub path_not_found : Response
path_not_found = error_text 404 "404 page not found"

unfoldable pub search : List Route → String → String → Routed
search [] path method = answers path_not_found
search (route ∷ routes) path method =
    let later = search routes path method in
    if path == route.path
    then (if method == route.method then calls route.handler else answers method_not_allowed)
    else later

unfoldable pub router : String → String → Routed
unfolding search
router path method = search routing_table path method

-- StatusHandler
abbrev pub status_response : Response
status_response = error_text 200 "CWMP ACS is running"
