-- ===== src/Tests/Queue.antt =====
-- The queue of RPCs, from the API to the device, at concrete inputs.
use cwmp_acs_go.Prelude.{none, some, [], ◌∷◌, ◌≡◌, ◌*◌, ◌≤◌, refl, arith, length}
use cwmp_acs_go.Server.Build.{build_cwmp_message_from_parts}
use cwmp_acs_go.Server.Build.Requests.{IsRequest, build_cwmp_message_from_parts-IsRequest}
use cwmp_acs_go.Server.Database.{
  Db, call, first_queued, count_send, without, fetch_queued_rpc, delete_queued_rpc,
}
use cwmp_acs_go.Server.Database.Fifo.Refines.{IsFifo, queue_of, queue-IsFifo}
use cwmp_acs_go.Server.Session.{lookup}
use cwmp_acs_go.Server.World.{World, Request, Body}
use cwmp_acs_go.Server.Incoming.{find_session}
use cwmp_acs_go.Server.Rpc.{find_outgoing_rpc, outgoing_loop, send_next}
use cwmp_acs_go.Server.Rpc.Settled.{IsSettled}
use cwmp_acs_go.Server.Rpc.Fifo.{Next, find_outgoing_rpc-Next}
use cwmp_acs_go.Server.Rpc.Sends.{polls, length-polls}
use cwmp_acs_go.Server.Cwmp.{cwmp_handler, handle_body, handle_empty, conclude}
use cwmp_acs_go.Server.Cwmp.Settled.{cwmp_handler-drained}
use cwmp_acs_go.Tests.Samples.{reboot, json, env, busy_db, world}

build_cwmp_message_from_parts-IsRequest_example : IsRequest "m1" "Reboot" (reboot "m1")
unfolding build_cwmp_message_from_parts
build_cwmp_message_from_parts-IsRequest_example =
    build_cwmp_message_from_parts-IsRequest json "m1" "Reboot" "" (reboot "m1") refl

queue-IsFifo_example : IsFifo busy_db
queue-IsFifo_example = queue-IsFifo busy_db (omega arith, (omega arith, omega arith))

find_outgoing_rpc-Next_example :
    Next json
      (queue_of busy_db "00D09E-42")
      (find_outgoing_rpc json "00D09E-42" busy_db).0
      (queue_of (find_outgoing_rpc json "00D09E-42" busy_db).1 "00D09E-42")
find_outgoing_rpc-Next_example =
    find_outgoing_rpc-Next json "00D09E-42" busy_db refl (omega arith, (omega arith, omega arith))

busy_db-IsSettled : IsSettled json busy_db
unfolding build_cwmp_message_from_parts
busy_db-IsSettled = record {
  calm = refl;
  rising = (omega arith, (omega arith, omega arith));
  sound = (((λ h. cc), omega arith), (((λ h. cc), omega arith), tt));
}

length-polls_example :
    length (polls json "00D09E-42" 9 busy_db) ≤ 6 * length (queue_of busy_db "00D09E-42")
length-polls_example = length-polls json "00D09E-42" 9 busy_db busy_db-IsSettled

abbrev empty_post : Request
empty_post = record { cookie = some "cookie"; body = Body.empty; uuid = "new"; now = 9 }

-- All that is queued has been sent too often.
abbrev stale_db : Db
stale_db = record busy_db {
  queue =
      record {
        id = 1;
        message_id = "m1";
        device_id = "00D09E-42";
        message_name = "Reboot";
        parameters = none;
        send_count = 6;
      }
      ∷ [];
}

stale_db-IsSettled : IsSettled json stale_db
unfolding build_cwmp_message_from_parts
stale_db-IsSettled = record {
  calm = refl;
  rising = (omega arith, omega arith);
  sound = (((λ h. cc), omega arith), tt);
}

abbrev stale : World
stale = record world { db = stale_db }

cwmp_handler-drained_example :
    first_queued "00D09E-42" (cwmp_handler env empty_post stale).1.db.queue ≡ none
unfolding cwmp_handler handle_body handle_empty conclude send_next find_outgoing_rpc outgoing_loop
    fetch_queued_rpc first_queued count_send call delete_queued_rpc without lookup find_session
    build_cwmp_message_from_parts
cwmp_handler-drained_example =
    cwmp_handler-drained env empty_post stale 0 stale_db-IsSettled refl refl refl refl
