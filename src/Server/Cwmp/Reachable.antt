-- ===== src/Server/Cwmp/Reachable.antt =====
-- The server from its start on: requests of devices, and what other parts do in between.
use cwmp_acs_go.Prelude.{
  String, Bool, Option, some, List, [], ◌≡◌, ◌≢◌, ◌⊎◌, inl, inr, sym, subst, ◌∙◌,
}
use cwmp_acs_go.Server.Database.{queue_rpc}
use cwmp_acs_go.Server.Api.{ApiCall, api_handler}
use cwmp_acs_go.Server.Api.Queue.{api_handler-sessions}
use cwmp_acs_go.Server.Events.{receive}
use cwmp_acs_go.Server.Broker.{Event, Broker, subscribe_with_filter, unsubscribe}
use cwmp_acs_go.Server.Session.{Address, SessionState, terminated, lookup}
use cwmp_acs_go.Server.Session.Consistent.{IsConsistent, IsActive}
use cwmp_acs_go.Server.World.{Env, World, Request}
use cwmp_acs_go.Server.Cwmp.{cwmp_handler}
use cwmp_acs_go.Server.Cwmp.Sessions.{cwmp_handler-IsConsistent}

-- One step: CwmpHandler serves a request; ApiHandler serves a call; an RPC is queued; a subscriber
-- comes, takes an event or goes; the calls of the database to come are settled to end in some way.
pub data Step (w : World) : World → Type 0 where
  handles : (env : Env) (r : Request) → Step w (cwmp_handler env r w).1
  calls_api : (env : Env) (c : ApiCall) → Step w (api_handler env c w).1
  queues :
      (to id name parameters : String)
      → Step w (record w { db = (queue_rpc to id name parameters w.db).1 })
  subscribes :
      (id : String) (filter : Option (Event → Bool))
      → Step w (record w { broker = subscribe_with_filter id filter w.broker })
  receives :
      (id : String) (e : Event) (b : Broker)
      → receive id w.broker ≡ some (e, b)
      → Step w (record w { broker = b })
  unsubscribes : (id : String) → Step w (record w { broker = unsubscribe id w.broker })
  settles : (ends : List Bool) → Step w (record w { db = record w.db { outcomes = ends } })

-- What is reached from a start with no session.
pub data Reachable : World → Type 0 where
  starts : {w : World} → w.sessions.by_id ≡ [] → w.sessions.by_device ≡ [] → Reachable w
  goes_on : {v w : World} → Reachable v → Step v w → Reachable w

pub starts-IsConsistent :
    (w : World) → w.sessions.by_id ≡ [] → w.sessions.by_device ≡ [] → IsConsistent w.sessions
unfolding lookup
starts-IsConsistent w no_id no_device = record {
  by_id = λ k a h. absurd (let l : lookup k [] ≡ some a = rw no_id at h in cc);
  by_device = λ k a h. absurd (let l : lookup k [] ≡ some a = rw no_device at h in cc);
}

Step-IsConsistent : (v w : World) → Step v w → IsConsistent v.sessions → IsConsistent w.sessions
Step-IsConsistent v w (handles env r) c = cwmp_handler-IsConsistent env r v c
Step-IsConsistent v w (calls_api env c) h =
    subst (λ s. IsConsistent s) (sym (api_handler-sessions env c v)) h
Step-IsConsistent v w (receives id e b taken) c = c
Step-IsConsistent v w (queues to id name parameters) c = c
Step-IsConsistent v w (subscribes id filter) c = c
Step-IsConsistent v w (unsubscribes id) c = c
Step-IsConsistent v w (settles ends) c = c

Reachable-IsConsistent : (w : World) → Reachable w → IsConsistent w.sessions
Reachable-IsConsistent w (starts no_id no_device) = starts-IsConsistent w no_id no_device
Reachable-IsConsistent w (goes_on before s) =
    Step-IsConsistent _ w s (Reachable-IsConsistent _ before)

-- However the server was reached from a start without sessions, two different cookies never lead to
-- the same session.
pub Reachable-cookies_differ :
    (w : World) (k j : String) (a : Address)
    → Reachable w
    → lookup k w.sessions.by_id ≡ some a
    → lookup j w.sessions.by_id ≡ some a
    → k ≡ j
Reachable-cookies_differ w k j a reached at_k at_j =
    let c = Reachable-IsConsistent w reached in sym (c.by_id k a at_k).1 ∙ (c.by_id j a at_j).1

active-never_terminated : (s : SessionState) → IsActive s → s ≢ terminated
active-never_terminated s active h = absurd (let no : IsActive terminated = rw h at active in no)

-- However the server was reached from a start without sessions, neither a cookie nor a device leads to
-- a session that has ended.
pub Reachable-never_terminated :
    (w : World) (k : String) (a : Address)
    → Reachable w
    → (lookup k w.sessions.by_id ≡ some a) ⊎ (lookup k w.sessions.by_device ≡ some a)
    → (w.sessions.heap a).session_state ≢ terminated
Reachable-never_terminated w k a reached (inl h) =
    active-never_terminated _ ((Reachable-IsConsistent w reached).by_id k a h).2
Reachable-never_terminated w k a reached (inr h) =
    active-never_terminated _ ((Reachable-IsConsistent w reached).by_device k a h).2
