-- ===== src/Server/Api/Connection.antt =====
-- The end of ApiHandler: whether a connection request is sent, and what is answered.
use cwmp_acs_go.Prelude.{
  ℕ, String, true, false, Option, none, some, [], ◌∷◌, ◌≤◌, ◌<◌, ◌≡◌, ◌≢◌, ◌⊎◌, inl, inr, refl, sym,
  ap, subst, ◌∙◌, arith, eq_iff, ◌==◌, ◌||◌, ltb, leb, Bool-cases, Option-cases,
}
use cwmp_acs_go.Prelude.Int.{pos}
use cwmp_acs_go.Go.Text.{texts}
use cwmp_acs_go.Go.Strconv.{itoa}
use cwmp_acs_go.Cwmp.Structs.{Message, get_id}
use cwmp_acs_go.Server.Database.{Db, DeviceInfo, DeviceRow, info_of}
use cwmp_acs_go.Server.Build.{ApiRequest}
use cwmp_acs_go.Server.Session.{SessionState, terminated, Address, lookup}
use cwmp_acs_go.Server.World.{Env, World, Response, Content, Get, not_created, not_sent, answered}
use cwmp_acs_go.Server.Api.{
  trigger, lacks_session, is_terminated, send_connection_request, send_http_connection_request,
}

abbrev pub with_db : Db → World → World
with_db d w = record w { db = d }

-- The response that says that the message with this UUID is queued.
abbrev pub queued_response : String → Response
queued_response uuid = record {
  status = 202;
  set_cookie = none;
  content = Content.json (("status", "queued") ∷ ("message_id", uuid) ∷ []);
}

-- Every session that is registered for the device, if there is one, has ended.
abbrev pub LacksSession : String → World → Type 0
LacksSession device w =
    (a : Address)
    → lookup device w.sessions.by_device ≡ some a
    → (w.sessions.heap a).session_state ≡ terminated

-- The connection request fails: there is no URL, the GET fails, the status is not a 2xx, or the body
-- of the answer cannot be read.
pub data Unreached (env : Env) (url : String) : Type 0 where
  no_url : url ≡ "" → Unreached env url
  uncreated : (e : String) → env.get url ≡ not_created e → Unreached env url
  unsent : (e : String) → env.get url ≡ not_sent e → Unreached env url
  unwelcome :
      (status : ℕ) (unread : Option String)
      → env.get url ≡ answered status unread
      → (status < 200) ⊎ (300 ≤ status)
      → Unreached env url
  unread : (status : ℕ) (e : String) → env.get url ≡ answered status (some e) → Unreached env url

-- The connection request succeeds: there is a URL, and the GET is answered with a 2xx.
pub record IsReached (env : Env) (url : String) : Type 0 where
  pub has_url : url ≢ ""
  pub status : ℕ
  pub answers : env.get url ≡ answered status none
  pub least : 200 ≤ status
  pub most : status < 300

-- The answer once the request is queued, for the device of this row: it is accepted if no session is to
-- be triggered, if the device is in a session that has not ended, or if the connection request to its URL
-- succeeds; if it fails, the answer is a 500.
pub data Answers (env : Env) (req : ApiRequest) (uuid : String) (row : DeviceRow) (w : World)
    : Response → Type 0 where
  not_triggered : req.trigger_session ≡ false → Answers env req uuid row w (queued_response uuid)
  in_session :
      (a : Address)
      → lookup req.device_id w.sessions.by_device ≡ some a
      → (w.sessions.heap a).session_state ≢ terminated
      → Answers env req uuid row w (queued_response uuid)
  reached :
      req.trigger_session ≡ true
      → LacksSession req.device_id w
      → IsReached env row.connection_request_url
      → Answers env req uuid row w (queued_response uuid)
  unreached :
      (r : Response)
      → req.trigger_session ≡ true
      → LacksSession req.device_id w
      → Unreached env row.connection_request_url
      → r.status ≡ 500
      → Answers env req uuid row w r

get-Unreached :
    (env : Env) (url : String) (g : Get)
    → url ≢ ""
    → env.get url ≡ g
    → (IsReached env url × (send_http_connection_request env url ≡ none))
      ⊎ (Unreached env url × (e : String) × (send_http_connection_request env url ≡ some e))
unfolding send_http_connection_request
get-Unreached env url (not_created e) h g = inr (
  uncreated e g,
  texts ("failed to create connection request: " ∷ e ∷ []),
  rw (send_http_connection_request, g) refl,
)
get-Unreached env url (not_sent e) h g = inr (
  unsent e g,
  texts ("connection request failed: " ∷ e ∷ []),
  rw (send_http_connection_request, g) refl,
)
get-Unreached env url (answered status o) h g =
    elim (Bool-cases (ltb status 200 || leb 300 status)) [
      | inl bad ↦ inr (
        unwelcome status o g (ground arith),
        texts ("connection request returned non-2xx status: " ∷ itoa (pos status) ∷ []),
        rw (send_http_connection_request, g, bad) refl,
      )
      | inr good ↦ elim (Option-cases o) [
        | inr (e, s) ↦ inr (
          unread status e (g ∙ ap (answered status) s),
          texts ("failed to read connection request response: " ∷ e ∷ []),
          rw (send_http_connection_request, g, good, s) refl,
        )
        | inl n ↦ inl (
          record {
            has_url = h;
            status = status;
            answers = g ∙ ap (answered status) n;
            least = ground arith;
            most = ground arith;
          },
          rw (send_http_connection_request, g, good, n) refl,
        )
      ]
    ]

-- The connection request to the device of a row.
request-Unreached :
    (env : Env) (device : DeviceInfo)
    → (IsReached env device.connection_request_url × (send_connection_request env device ≡ none))
      ⊎ (Unreached env device.connection_request_url
          × (e : String) × (send_connection_request env device ≡ some e))
unfolding send_connection_request
request-Unreached env device = elim (Bool-cases (device.connection_request_url == "")) [
  | inl e ↦ inr (
    no_url ((eq_iff device.connection_request_url "").0 e),
    "device does not have a connection request URL",
    rw (send_connection_request, e) refl,
  )
  | inr n ↦
      rw (send_connection_request, n)
        (get-Unreached env device.connection_request_url (env.get device.connection_request_url)
          (ground (arith, eq_iff device.connection_request_url "")) refl)
]

is_terminated-terminated : (s : SessionState) → is_terminated s ≡ true → s ≡ terminated
is_terminated-terminated terminated h = refl
is_terminated-terminated _ h = absurd (let no : false ≡ true = h in cc)

lacks_session-LacksSession :
    (device : String) (w : World)
    → ((lacks_session device w ≡ true) × LacksSession device w)
      ⊎ ((lacks_session device w ≡ false)
          × (a : Address) × (lookup device w.sessions.by_device ≡ some a)
          × ((w.sessions.heap a).session_state ≢ terminated))
unfolding lacks_session
lacks_session-LacksSession device w = elim (Option-cases (lookup device w.sessions.by_device)) [
  | inl n ↦ inl (rw (lacks_session, n) refl, λ a s. let no : none ≡ some a = sym n ∙ s in cc)
  | inr (a, s) ↦ elim (Bool-cases (is_terminated (w.sessions.heap a).session_state)) [
    | inl t ↦ inl (
      rw (lacks_session, s) t,
      λ a' s'.
          let same : some a ≡ some a' = sym s ∙ s' in
          let own : a ≡ a' = cc in
          subst (λ x. (w.sessions.heap x).session_state ≡ terminated) own
            (is_terminated-terminated _ t),
    )
    | inr n ↦ inr (
      rw (lacks_session, s) n,
      a,
      s,
      λ t. let no : true ≡ false = sym (ap is_terminated t) ∙ n in cc,
    )
  ]
]

pub trigger-Answers :
    (env : Env) (req : ApiRequest) (uuid id : String) (row : DeviceRow) (message : Message)
    (w : World)
    → get_id message ≡ uuid
    → Answers env req uuid row w
        (trigger env req (record (info_of row) { device_id = id }) message w)
unfolding trigger
trigger-Answers env req uuid id row message w own =
    let device : DeviceInfo = record (info_of row) { device_id = id } in
    elim (Bool-cases req.trigger_session) [
      | inr n ↦ simp (n, own) (not_triggered n)
      | inl t ↦ elim (lacks_session-LacksSession req.device_id w) [
        | inr (n, a, s, lives) ↦ simp (t, n, own) (in_session a s lives)
        | inl (l, lacks) ↦ elim (request-Unreached env device) [
          | inl (reaches, n) ↦ simp (t, l, n, own) (reached t lacks reaches)
          | inr (fails, e, s) ↦ simp (t, l, s) (unreached _ t lacks fails refl)
        ]
      ]
    ]

-- The session maps do not depend on the database.
pub Answers-db :
    (env : Env) (req : ApiRequest) (uuid : String) (row : DeviceRow) (w : World) (d : Db)
    (r : Response)
    → Answers env req uuid row (with_db d w) r
    → Answers env req uuid row w r
Answers-db env req uuid row w d _ (not_triggered n) = not_triggered n
Answers-db env req uuid row w d _ (in_session a s lives) = in_session a s lives
Answers-db env req uuid row w d _ (reached t lacks reaches) = reached t lacks reaches
Answers-db env req uuid row w d _ (unreached r t lacks fails status) =
    unreached r t lacks fails status
