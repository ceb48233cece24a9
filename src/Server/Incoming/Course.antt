-- ===== src/Server/Incoming/Course.antt =====
-- The courses that handleIncomingMessage can take.
use cwmp_acs_go.Prelude.{
  ℕ, String, Option, none, some, List, [], ◌∷◌, ◌≡◌, ◌≢◌, refl, ap, ◌==◌, inl, inr, Bool-cases,
}
use cwmp_acs_go.Cwmp.Structs.{CwmpHeader, CwmpMessage, Message, Inform}
use cwmp_acs_go.Cwmp.Errors.{Result, ok, err}
use cwmp_acs_go.Cwmp.Versions.{CwmpVersion, v1_4}
use cwmp_acs_go.Go.Runtime.{Runtime}
use cwmp_acs_go.Parsers.Table.{cwmp_message_parsers}
use cwmp_acs_go.Parsers.InformParser.Valid.{parse_inform-base}
use cwmp_acs_go.Xml.Structs.{SoapElement, local, children}
use cwmp_acs_go.Xml.Namespaces.{NamespaceMap, build_namespace_map}
use cwmp_acs_go.Xml.Envelope.{TokenStream, parse_soap_envelope, ParsedEnvelope}
use cwmp_acs_go.Xml.Envelope
use cwmp_acs_go.Server.Session.{create_new_session, SessionInfo, Address}
use cwmp_acs_go.Server.World.{Env, World}
use cwmp_acs_go.Server.Incoming.{
  Handled, done, checked_rpc, handle_parsed, invalid_header, is_valid_namespace_map, opened,
  continued, with_rpc, accepts_rpcs, version_parsers, dispatch, open_session, handle_inform,
  handle_other, handle_rpc, handle_envelope, handle_incoming_message, find_session,
  parse_cwmp_message_via_map,
}

-- The message is refused and nothing changes; or it is dispatched in the session of the cookie; or it
-- is an Inform and is dispatched in the new session that it opens.
pub data Course (env : Env) (now : ℕ) (uuid session_id : String) (w : World)
    : Handled × World → Type 0 where
  refuses :
      (h : Handled)
      → ((a : Address) (o : Option Message) → h ≢ done o a)
      → Course env now uuid session_id w (h, w)
  goes_on :
      (a : Address) (m : Message)
      → find_session session_id w ≡ some a
      → Course env now uuid session_id w (dispatch env now a m w)
  opens :
      (info : SessionInfo) (m : Inform)
      → info.session_id ≡ uuid
      → m.base.name ≡ "Inform"
      → Course env now uuid session_id w
          (dispatch env now w.sessions.next (Message.inform m) (open_session uuid info m w))

module _ (env : Env) (now : ℕ) (uuid session_id : String) (w : World) where
  abbrev Takes : Handled × World → Type 0
  Takes = Course env now uuid session_id w

  continued-Course :
      (a : Address) (s : SessionInfo) (r : Result Message)
      → find_session session_id w ≡ some a
      → Takes (continued env now a s r w)
  continued-Course a s (ok m) own = goes_on a m own
  continued-Course a s (err e) own = refuses _ (λ b o h. cc)

  handle_other-Course :
      (o : Option Address) (ns : NamespaceMap) (header : CwmpHeader) (name : String)
      (elem : SoapElement)
      → find_session session_id w ≡ o
      → Takes (handle_other env now session_id o ns header name elem w)
  unfolding handle_other
  handle_other-Course none ns header name elem own = refuses _ (λ b o h. cc)
  handle_other-Course (some a) ns header name elem own =
      elim (Bool-cases (accepts_rpcs (w.sessions.heap a).session_state)) [
        | inl e ↦ rw e (continued-Course a (w.sessions.heap a) _ own)
        | inr n ↦ rw n (refuses _ (λ b o h. cc))
      ]

  opened-Course :
      (info : SessionInfo) (r : Result Message)
      → info.session_id ≡ uuid
      → ((m : Inform) → r ≡ ok (Message.inform m) → m.base.name ≡ "Inform")
      → Takes (opened env now uuid info r w)
  opened-Course info (err e) own named = refuses _ (λ b o h. cc)
  opened-Course info (ok (Message.inform m)) own named = opens info m own (named m refl)
  opened-Course info (ok _) own named = refuses _ (λ b o h. cc)

  via_map-named :
      (go : Runtime) (v : CwmpVersion) (elem : SoapElement) (header : CwmpHeader) (m : Inform)
      → parse_cwmp_message_via_map go v "Inform" elem header ≡ ok (Message.inform m)
      → m.base.name ≡ "Inform"
  unfolding parse_cwmp_message_via_map version_parsers cwmp_message_parsers
  via_map-named go v1_4 elem header m h =
      ap (λ (b : CwmpMessage). b.name) (parse_inform-base go elem header m h)
  via_map-named go v elem header m h =
      ap (λ (b : CwmpMessage). b.name) (parse_inform-base go elem header m h)

  handle_inform-Course :
      (ns : NamespaceMap) (header : CwmpHeader) (elem : SoapElement)
      → Takes (handle_inform env now uuid ns header elem w)
  unfolding handle_inform create_new_session
  handle_inform-Course ns header elem =
      opened-Course _ _ refl (λ m h. via_map-named env.go _ elem header m h)

  handle_rpc-Course :
      (ns : NamespaceMap) (header : CwmpHeader) (elem : SoapElement)
      → Takes (handle_rpc env now uuid session_id ns header elem w)
  unfolding handle_rpc
  handle_rpc-Course ns header elem =
      elim (invalid_header header (local elem))
        as (λ o. Takes (checked_rpc env now uuid session_id ns header elem o w)) [
          | some t ↦ refuses _ (λ b o h. cc)
          | none ↦ elim (Bool-cases (local elem == "Inform")) [
            | inl e ↦ rw e (handle_inform-Course ns header elem)
            | inr n ↦
                rw n
                  (handle_other-Course (find_session session_id w) ns header (local elem) elem refl)
          ]
        ]

  with_rpc-Course :
      (es : List SoapElement) (f : SoapElement → Handled × World)
      → ((e : SoapElement) → Takes (f e))
      → Takes (with_rpc es f w)
  with_rpc-Course [] f h = refuses _ (λ b o k. cc)
  with_rpc-Course (e ∷ es) f h = h e

  handle_envelope-Course :
      (parsed : ParsedEnvelope) → Takes (handle_envelope env now uuid session_id parsed w)
  unfolding handle_envelope
  handle_envelope-Course parsed =
      elim (Bool-cases (is_valid_namespace_map (build_namespace_map env.go parsed.namespaces))) [
        | inl e ↦
            rw e (with_rpc-Course (children parsed.body) _ (λ elem. handle_rpc-Course _ _ elem))
        | inr n ↦ rw n (refuses _ (λ b o h. cc))
      ]

  -- handleIncomingMessage takes one of the three courses.
  pub handle_incoming_message-Course :
      (stream : TokenStream)
      → Course env now uuid session_id w (handle_incoming_message env now uuid session_id stream w)
  unfolding handle_incoming_message
  handle_incoming_message-Course stream =
      elim (parse_soap_envelope stream)
        as (λ r. Takes (handle_parsed env now uuid session_id r w)) [
          | Envelope.err e ↦ refuses _ (λ b o h. cc)
          | Envelope.ok parsed ↦ handle_envelope-Course parsed
        ]
