-- ===== src/Server/Api/Queue.antt =====
-- What ApiHandler does to the queue.
use cwmp_acs_go.Prelude.{
  String, Bool, some, List, ◌≤◌, ◌≡◌, ◌≢◌, ◌⊎◌, inl, inr, refl, arith, eq_iff, ◌==◌, Bool-cases,
  length,
}
use cwmp_acs_go.Cwmp.Structs.{Message}
use cwmp_acs_go.Cwmp.Errors.{Result, ok, err}
use cwmp_acs_go.Server.Database.{
  Db, DeviceInfo, DeviceRow, info_of, DeviceResult, find_device, QueueRow, queue_rpc,
}
use cwmp_acs_go.Server.Database.Calls.{
  calls_to_come, new_row, append_row, Appends, appends, queue_rpc-Appends, Looks, finds, misses,
  get_device_by_id-Looks,
}
use cwmp_acs_go.Server.Build.{
  ApiRequest, Decoded, decoded, malformed, build_cwmp_message_from_parts,
}
use cwmp_acs_go.Server.Build.Requests.{IsRequest-id, build_cwmp_message_from_parts-IsRequest}
use cwmp_acs_go.Server.World.{Env, World, Response}
use cwmp_acs_go.Server.Api.Connection.{with_db, Answers, trigger-Answers, Answers-db}
use cwmp_acs_go.Server.Api.{ApiCall, enqueue, built, fetched, handle_request, api_handler}

-- The row of a request that is queued.
abbrev pub row_for : String → ApiRequest → World → QueueRow
row_for uuid req w = new_row w.db.next_id req.device_id uuid req.rpc req.parameters

-- A request that can be queued: it names the registered device of this row, and a message can be built
-- of it.
pub record IsQueueable (env : Env) (uuid : String) (req : ApiRequest) (message : Message)
    (row : DeviceRow) (w : World) : Type 0 where
  pub named : req.device_id ≢ ""
  pub registered : find_device req.device_id w.db.devices ≡ some row
  pub builds : build_cwmp_message_from_parts env.json uuid req.rpc req.parameters ≡ ok message

-- How ApiHandler ends: with an error and nothing changed, or with one more row in the queue.
pub data Serves (env : Env) (c : ApiCall) (w : World) : Response × World → Type 0 where
  refuses :
      (r : Response) (ends : List Bool)
      → length ends ≤ length w.db.outcomes
      → (r.status ≡ 400) ⊎ (r.status ≡ 500)
      → Serves env c w (r, with_db (calls_to_come ends w.db) w)
  queues :
      (req : ApiRequest) (message : Message) (row : DeviceRow) (r : Response) (ends : List Bool)
      → length ends ≤ length w.db.outcomes
      → env.json.api_request c.body ≡ decoded req
      → IsQueueable env c.uuid req message row w
      → Answers env req c.uuid row w r
      → Serves env c w (r, with_db (append_row (row_for c.uuid req w) (calls_to_come ends w.db)) w)

module _ (env : Env) (c : ApiCall) (req : ApiRequest) (w : World) where
  -- The device that the database gives.
  abbrev device_of : DeviceRow → DeviceInfo
  device_of row = record (info_of row) { device_id = req.device_id }

  enqueue-Serves :
      (row : DeviceRow) (message : Message) (ends : List Bool) (r : Bool × Db)
      → length ends ≤ length w.db.outcomes
      → env.json.api_request c.body ≡ decoded req
      → IsQueueable env c.uuid req message row w
      → queue_rpc req.device_id c.uuid req.rpc req.parameters (calls_to_come ends w.db) ≡ r
      → Appends (row_for c.uuid req w) (calls_to_come ends w.db) r
      → Serves env c w
          (enqueue env req (device_of row) message (with_db (calls_to_come ends w.db) w))
  enqueue-Serves row message ends _ le body q e (appends later ge) =
      let same = IsRequest-id c.uuid req.rpc message (
        build_cwmp_message_from_parts-IsRequest env.json c.uuid req.rpc req.parameters message
          q.builds) in
      let d = append_row (row_for c.uuid req w) (calls_to_come later w.db) in
      rw (same, e)
        (queues req message row _ later (omega arith) body q (
          Answers-db env req c.uuid row w d _
            (trigger-Answers env req c.uuid req.device_id row message (with_db d w) same)))
  enqueue-Serves row message ends _ le body q e (Appends.fails later ge) =
      let same = IsRequest-id c.uuid req.rpc message (
        build_cwmp_message_from_parts-IsRequest env.json c.uuid req.rpc req.parameters message
          q.builds) in
      rw (same, e) (refuses _ later (omega arith) (inr refl))

  built-Serves :
      (row : DeviceRow) (ends : List Bool) (m : Result Message)
      → length ends ≤ length w.db.outcomes
      → env.json.api_request c.body ≡ decoded req
      → req.device_id ≢ ""
      → find_device req.device_id w.db.devices ≡ some row
      → build_cwmp_message_from_parts env.json c.uuid req.rpc req.parameters ≡ m
      → Serves env c w (built env req (device_of row) m (with_db (calls_to_come ends w.db) w))
  built-Serves row ends (err x) le body named known m = refuses _ ends le (inl refl)
  built-Serves row ends (ok message) le body named known m =
      enqueue-Serves row message ends _ le body
        (record { named = named; registered = known; builds = m }) refl
        (queue_rpc-Appends req.device_id c.uuid req.rpc req.parameters (calls_to_come ends w.db))

  fetched-Serves :
      (r : DeviceResult × Db)
      → env.json.api_request c.body ≡ decoded req
      → req.device_id ≢ ""
      → Looks req.device_id w.db r
      → Serves env c w (fetched env c.uuid req r.0 (with_db r.1 w))
  fetched-Serves _ body named (finds row ends le s) = built-Serves row ends _ le body named s refl
  fetched-Serves _ body named (misses ends le n) = refuses _ ends le (inr refl)
  fetched-Serves _ body named (Looks.fails ends le) = refuses _ ends le (inr refl)

  handle_request-Serves :
      env.json.api_request c.body ≡ decoded req → Serves env c w (handle_request env c.uuid req w)
  unfolding handle_request
  handle_request-Serves body = elim (Bool-cases (req.device_id == "")) [
    | inl e ↦ rw e (refuses _ w.db.outcomes (omega arith) (inl refl))
    | inr n ↦ elim (Bool-cases (req.rpc == "")) [
      | inl e ↦ rw (n, e) (refuses _ w.db.outcomes (omega arith) (inl refl))
      | inr m ↦
          rw (n, m)
            (fetched-Serves _ body (ground (arith, eq_iff req.device_id ""))
              (get_device_by_id-Looks req.device_id w.db))
    ]
  ]

decoded-Serves :
    (env : Env) (c : ApiCall) (w : World) (d : Decoded ApiRequest)
    → env.json.api_request c.body ≡ d
    → Serves env c w (api_handler env c w)
unfolding api_handler
decoded-Serves env c w (malformed why) e =
    rw (api_handler, e) (refuses _ w.db.outcomes (omega arith) (inl refl))
decoded-Serves env c w (decoded req) e = rw (api_handler, e) (handle_request-Serves env c req w e)

-- ApiHandler either answers 400 or 500 and leaves the queue, the devices and the sessions as they are; or
-- the body is a request for a registered device, a message can be built of it, and the queue has one
-- more row at its end, with the drawn UUID, the name and the parameters of the request and a count of 0.
-- Then it answers 500 if a session was to be triggered, no session of the device that has not ended was
-- registered, and the URL in the device's row is empty or its GET fails, is not answered with a 2xx, or
-- has a body that cannot be read. It answers 202 with the drawn UUID if no session was to be triggered,
-- if a session of the device that has not ended was registered, or if the URL is not empty and its GET is
-- answered with a 2xx whose body can be read.
pub api_handler-Serves :
    (env : Env) (c : ApiCall) (w : World) → Serves env c w (api_handler env c w)
api_handler-Serves env c w = decoded-Serves env c w (env.json.api_request c.body) refl

Serves-sessions :
    (env : Env) (c : ApiCall) (w : World) (r : Response × World)
    → Serves env c w r
    → r.1.sessions ≡ w.sessions
Serves-sessions env c w _ (refuses r ends le status) = refl
Serves-sessions env c w _ (queues req message row r ends le body q a) = refl

pub api_handler-sessions :
    (env : Env) (c : ApiCall) (w : World) → (api_handler env c w).1.sessions ≡ w.sessions
api_handler-sessions env c w = Serves-sessions env c w _ (api_handler-Serves env c w)
