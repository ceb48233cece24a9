-- ===== src/Server/Session.antt =====
-- internal/session/session.go. A `*SessionInfo` is an address of the heap, so that the two maps of
-- active sessions can share a session.
pub mod Consistent
use cwmp_acs_go.Prelude.{
  ℕ, suc, String, Bool, true, false, Option, none, some, List, [], ◌∷◌, ◌==◌, eqb, if◌then◌else◌,
}
use cwmp_acs_go.Cwmp.Structs.{Message, DeviceId}
use cwmp_acs_go.Cwmp.Versions.{CwmpVersion, unknown}
use cwmp_acs_go.Parsers.InformParser.{no_device}
use cwmp_acs_go.Xml.Namespaces.{NamespaceMap, no_namespaces}

pub data SessionState : Type 0 where
  new initiating receiving_cpe_rpcs sending_acs_rpcs terminated : SessionState

-- The request's context is left out: a cancelled context shows as a failure of the database.
pub record SessionInfo : Type 0 where
  pub session_id : String
  pub device_id_string : String
  pub device_id : DeviceId
  pub session_state : SessionState
  pub cwmp_version : CwmpVersion
  pub last_incoming_message_time : ℕ
  pub last_outgoing_message_time : ℕ
  pub xml_namespaces : NamespaceMap
  pub active_rpc : Option Message

abbrev pub Address : Type 0
Address = ℕ

pub record Sessions : Type 0 where
  pub heap : Address → SessionInfo
  -- the next address that is free
  pub next : Address
  -- SessionIdActiveSessions and DeviceIdStringActiveSessions
  pub by_id : List (String × Address)
  pub by_device : List (String × Address)

unfoldable pub lookup : String → List (String × Address) → Option Address
lookup k [] = none
lookup k ((j, a) ∷ m) = if j == k then some a else lookup k m

unfoldable pub delete : String → List (String × Address) → List (String × Address)
delete k [] = []
delete k ((j, a) ∷ m) = let rest = delete k m in if j == k then rest else (j, a) ∷ rest

abbrev pub insert : String → Address → List (String × Address) → List (String × Address)
insert k a m = (k, a) ∷ delete k m

abbrev pub write : Address → SessionInfo → (Address → SessionInfo) → Address → SessionInfo
write a s heap b = if eqb b a then s else heap b

-- A change of the session at an address.
abbrev pub modify : Address → (SessionInfo → SessionInfo) → Sessions → Sessions
modify a f s = record s { heap = write a (f (s.heap a)) s.heap }

-- The assignments to single fields.
abbrev pub with_active_rpc : Option Message → SessionInfo → SessionInfo
with_active_rpc message s = record s { active_rpc = message }

abbrev pub with_incoming_time : ℕ → SessionInfo → SessionInfo
with_incoming_time now s = record s { last_incoming_message_time = now }

-- CreateNewSession, for the UUID that it draws
unfoldable pub create_new_session : String → SessionInfo
create_new_session uuid = record {
  session_id = uuid;
  device_id_string = "";
  device_id = no_device;
  session_state = new;
  cwmp_version = unknown;
  last_incoming_message_time = 0;
  last_outgoing_message_time = 0;
  xml_namespaces = no_namespaces;
  active_rpc = none;
}

abbrev pub allocate : SessionInfo → Sessions → Sessions
allocate info s = record s { heap = write s.next info s.heap; next = suc s.next }

-- The two statements that put a session into the maps of active sessions.
unfoldable pub register : String → Address → Sessions → Sessions
unfolding delete
register session_id a s = record s {
  by_id = insert session_id a s.by_id;
  by_device = insert (s.heap a).device_id_string a s.by_device;
}

-- The three statements that end a session: its state, and the two deletions.
unfoldable pub terminate : String → Address → Sessions → Sessions
unfolding delete
terminate session_id a s = record s {
  heap = write a (record (s.heap a) { session_state = terminated }) s.heap;
  by_id = delete session_id s.by_id;
  by_device = delete (s.heap a).device_id_string s.by_device;
}
