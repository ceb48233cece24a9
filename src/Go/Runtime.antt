-- ===== src/Go/Runtime.antt =====
-- What the language and its library leave open, or what the model takes from them as it is: the
-- orders in which `range` visits the three maps of the program that it iterates over, and strconv.Quote.
use cwmp_acs_go.Prelude.{String, List}

pub record Runtime : Type 0 where
  -- `range checkedParams` in isValidInform
  pub range_forced : List String
  -- `range incomingRequestNames` in processIncomingRequest
  pub range_requests : List String
  -- `range namespaces` in BuildNamespaceMap, on the entries of the map
  pub range_namespaces : List (String × String) → List (String × String)
  pub quote : String → String
