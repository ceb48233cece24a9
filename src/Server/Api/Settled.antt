-- ===== src/Server/Api/Settled.antt =====
-- What ApiHandler leaves in the queue, and how it comes to the device.
use cwmp_acs_go.Prelude.{
  ◌≤◌, String, Bool, none, some, List, [], ◌∷◌, ◌≡◌, refl, sym, ◌∙◌, subst, arith, eq_refl,
  All-append, length,
}
use cwmp_acs_go.Cwmp.Structs.{Message}
use cwmp_acs_go.Server.Database.{Db, DeviceRow, QueueRow, pending_of}
use cwmp_acs_go.Server.Database.Rows.{IsRising-append}
use cwmp_acs_go.Server.Database.Queue.{string_or_empty-nullable_string}
use cwmp_acs_go.Server.Database.Calls.{calls_to_come, append_row}
use cwmp_acs_go.Server.Build.{Json, ApiRequest, decoded}
use cwmp_acs_go.Server.Build.Requests.{IsRequest, build_cwmp_message_from_parts-IsRequest}
use cwmp_acs_go.Server.World.{Env, World, Response}
use cwmp_acs_go.Server.Rpc.{rebuilt, find_outgoing_rpc}
use cwmp_acs_go.Server.Rpc.Settled.{IsSound, IsSettled}
use cwmp_acs_go.Server.Api.{ApiCall, api_handler}
use cwmp_acs_go.Server.Api.Connection.{with_db}
use cwmp_acs_go.Server.Api.Queue.{Serves, refuses, queues, IsQueueable, row_for, api_handler-Serves}
use cwmp_acs_go.Server.Database.Fifo.{waiting-append}
use cwmp_acs_go.Server.Database.Fifo.Refines.{queue_of}
use cwmp_acs_go.Server.Rpc.Fifo.{Next, Next-first, find_outgoing_rpc-Next}

-- What is rebuilt of a row is the message that was built before it was queued.
rebuilt-row :
    (env : Env) (uuid : String) (req : ApiRequest) (message : Message) (row : DeviceRow) (w : World)
    → IsQueueable env uuid req message row w
    → rebuilt env.json (pending_of (row_for uuid req w)) ≡ some message
rebuilt-row env uuid req message row w q =
    rw (rebuilt, string_or_empty-nullable_string req.parameters, q.builds) refl

append-IsSettled :
    (json : Json) (r : QueueRow) (m : Message) (d : Db)
    → r.id ≡ d.next_id
    → r.send_count ≤ 6
    → rebuilt json (pending_of r) ≡ some m
    → IsSettled json d
    → IsSettled json (append_row r d)
append-IsSettled json r m d e few builds s = record {
  calm = s.calm;
  rising = IsRising-append 0 d.next_id d.queue r e s.rising;
  sound =
      All-append (IsSound json) d.queue (r ∷ []) s.sound
        (((λ n. let x : some m ≡ none = sym builds ∙ n in cc), few), tt);
}

calls_left-IsSettled :
    (json : Json) (ends : List Bool) (d : Db)
    → length ends ≤ length d.outcomes
    → IsSettled json d
    → IsSettled json (calls_to_come ends d)
calls_left-IsSettled json [] d le s = record { calm = refl; rising = s.rising; sound = s.sound }
calls_left-IsSettled json (b ∷ ends) d le s =
    absurd (let no : length (b ∷ ends) ≤ 0 = rw s.calm at le in omega (arith, no))

Serves-IsSettled :
    (env : Env) (c : ApiCall) (w : World) (r : Response × World)
    → Serves env c w r
    → IsSettled env.json w.db
    → IsSettled env.json r.1.db
Serves-IsSettled env c w _ (refuses r ends le status) s =
    calls_left-IsSettled env.json ends w.db le s
Serves-IsSettled env c w _ (queues req message row r ends le body q a) s =
    append-IsSettled env.json (row_for c.uuid req w) message (calls_to_come ends w.db) refl
      (omega arith) (rebuilt-row env c.uuid req message row w q)
      (calls_left-IsSettled env.json ends w.db le s)

-- If no call of the database is to fail, the ids in the queue rise up to the next one, and the message
-- of every row can be built and has been handed out at most six times, then all this still holds after
-- ApiHandler has served a call.
pub api_handler-IsSettled :
    (env : Env) (c : ApiCall) (w : World)
    → IsSettled env.json w.db
    → IsSettled env.json (api_handler env c w).1.db
api_handler-IsSettled env c w = Serves-IsSettled env c w _ (api_handler-Serves env c w)

row-handed_out :
    (env : Env) (uuid : String) (req : ApiRequest) (message : Message) (row : DeviceRow) (w : World)
    (ends : List Bool)
    → IsQueueable env uuid req message row w
    → IsSettled env.json (append_row (row_for uuid req w) (calls_to_come ends w.db))
    → queue_of w.db req.device_id ≡ []
    → (find_outgoing_rpc env.json req.device_id
        (append_row (row_for uuid req w) (calls_to_come ends w.db))).0
      ≡ some message
row-handed_out env uuid req message row w ends q s empty =
    let d = append_row (row_for uuid req w) (calls_to_come ends w.db) in
    let next = find_outgoing_rpc-Next env.json req.device_id d s.calm s.rising in
    let only : queue_of d req.device_id ≡ pending_of (row_for uuid req w) ∷ [] =
      waiting-append req.device_id w.db.queue (row_for uuid req w)
      ∙ rw (eq_refl req.device_id, empty) refl in
    Next-first env.json (pending_of (row_for uuid req w)) [] _ _
      (subst
        (λ ms.
          Next env.json ms (find_outgoing_rpc env.json req.device_id d).0
            (queue_of (find_outgoing_rpc env.json req.device_id d).1 req.device_id))
        only next)
      (omega arith)
    ∙ rebuilt-row env uuid req message row w q

-- A message with the id and the name that were asked for.
abbrev HandsOut : Env → ApiCall → ApiRequest → World → Type 0
HandsOut env c req w =
    (m : Message) × ((find_outgoing_rpc env.json req.device_id w.db).0 ≡ some m)
    × IsRequest c.uuid req.rpc m

Serves-handed_out :
    (env : Env) (c : ApiCall) (w : World) (req : ApiRequest) (r : Response × World)
    → Serves env c w r
    → env.json.api_request c.body ≡ decoded req
    → IsSettled env.json r.1.db
    → r.0.status ≡ 202
    → queue_of w.db req.device_id ≡ []
    → HandsOut env c req r.1
Serves-handed_out env c w req _ (refuses r ends le status) body s accepted empty =
    absurd (ground (arith, status, accepted))
Serves-handed_out env c w req _ (queues req' message row r ends le body' q a) body s accepted
      empty =
    let same : decoded req' ≡ decoded req = sym body' ∙ body in
    let own : req' ≡ req = cc in
    let empty' : queue_of w.db req'.device_id ≡ [] = rw own empty in
    let made =
      build_cwmp_message_from_parts-IsRequest env.json c.uuid req'.rpc req'.parameters message
        q.builds in
    subst
      (λ x.
        HandsOut env c x (with_db (append_row (row_for c.uuid req' w) (calls_to_come ends w.db)) w))
      own (message, row-handed_out env c.uuid req' message row w ends q s empty', made)

-- If the database is settled and nothing waits for a device, then a request for the device that
-- ApiHandler accepts is what findOutgoingRpc hands out for it next: a message of the RPC that was asked
-- for, with the UUID that was drawn.
pub api_handler-handed_out :
    (env : Env) (c : ApiCall) (w : World) (req : ApiRequest)
    → env.json.api_request c.body ≡ decoded req
    → IsSettled env.json w.db
    → (api_handler env c w).0.status ≡ 202
    → queue_of w.db req.device_id ≡ []
    → (m : Message) × ((find_outgoing_rpc env.json req.device_id (api_handler env c w).1.db).0
        ≡ some m)
      × IsRequest c.uuid req.rpc m
api_handler-handed_out env c w req body s accepted empty =
    Serves-handed_out env c w req _ (api_handler-Serves env c w) body
      (api_handler-IsSettled env c w s) accepted empty
