-- ===== src/Server/Serving.antt =====
-- Runs of the server in which no call of the database fails: posts of devices and calls of the API, in
-- any order.
use cwmp_acs_go.Server.Rpc.Settled.{IsSettled}
use cwmp_acs_go.Server.World.{Env, World, Request}
use cwmp_acs_go.Server.Cwmp.{cwmp_handler}
use cwmp_acs_go.Server.Cwmp.Settled.{cwmp_handler-IsSettled}
use cwmp_acs_go.Server.Api.{ApiCall, api_handler}
use cwmp_acs_go.Server.Api.Settled.{api_handler-IsSettled}

pub data Serving (env : Env) (v : World) : World → Type 0 where
  starts : Serving env v v
  posts : {w : World} → Serving env v w → (r : Request) → Serving env v (cwmp_handler env r w).1
  calls : {w : World} → Serving env v w → (c : ApiCall) → Serving env v (api_handler env c w).1

-- However posts of devices and calls of the API follow each other from a settled database on, the
-- database stays settled: no call of it is to fail, the ids in the queue rise up to the next one, and
-- the message of every row can be built and has been handed out at most six times.
pub Serving-IsSettled :
    (env : Env) (v w : World) → IsSettled env.json v.db → Serving env v w → IsSettled env.json w.db
Serving-IsSettled env v _ s starts = s
Serving-IsSettled env v _ s (posts before r) =
    cwmp_handler-IsSettled env r _ (Serving-IsSettled env v _ s before)
Serving-IsSettled env v _ s (calls before c) =
    api_handler-IsSettled env c _ (Serving-IsSettled env v _ s before)
