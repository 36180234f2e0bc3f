-- ===== src/Orders/Calls.antt =====
-- How often a request to the service calls the VCD.
use hbs_queue.Config.{Config}
use hbs_queue.Errors.{GoError, Result, Result-cases}
use hbs_queue.Errors.Text.{error_text}
use hbs_queue.Http.Message.{Request, Writer, Handler}
use hbs_queue.Http.Middleware.{LogLine}
use hbs_queue.Http.OnboardOrg.{Backend, reply_with, enqueue, look_up, handle_onboard_org}
use hbs_queue.Http.OnboardOrg.Replies.{decode_valid-cases}
use hbs_queue.Http.Requests.{EchoRequest, OnboardOrgRequest, onboard_org_valid}
use hbs_queue.Http.Routes.{Route}
use hbs_queue.Http.Service.Guarded.{aside, ordered}
use hbs_queue.Http.Service.Keyless.{service-Guards}
use hbs_queue.Http.Service.{World, MuxLaws, service}
use hbs_queue.Jobs.Args.{OnboardOrgArgs}
use hbs_queue.Jobs.OnboardOrg.{Pool}
use hbs_queue.Prelude.{
  none, ℕ, ◌+◌, ◌≤◌, ◌≡◌, Option, some, List, Bytes, arith, inl, inr, Option-cases, refl, ◌*◌, utf8,
}
use hbs_queue.Prelude.Int.{ℤ}
use hbs_queue.Vcd.Client.{HttpClient, HttpRequest, Platform, Client}
use hbs_queue.Vcd.Request.Retried.{do_request_sends}
use hbs_queue.Vcd.Request.{get_organization}
use hbs_queue.Vcd.Types.{OrganizationResult}

module _ (unicode_lower : Bytes → Bytes) {N S Tx : Type 0} (platform : Platform N)
    (unmarshal : Bytes → OrganizationResult → OrganizationResult × Option GoError)
    (pool : Pool S Tx) (insert_job : Tx → OnboardOrgArgs → Tx × Result ℕ)
    (decode : Bytes → Option GoError → Result OnboardOrgRequest) (sent : N → ℕ) (per : ℕ)
    (counts : (client : HttpClient) (req : HttpRequest N) (net : N)
      → sent (platform.send client req net).0 ≤ per + sent net)
    (quiet_rand : (max : ℕ) (net : N) → sent (platform.rand_int max net).0 ≡ sent net)
    (quiet_wait : (delay : ℤ) (net : N) → sent (platform.wait delay net).0 ≡ sent net) where
  sent-get_organization :
      (name : Bytes) (net : N) (client : Client)
      → sent (get_organization platform unmarshal name net client).0.net ≤ 6 * per + sent net
  unfolding get_organization
  sent-get_organization name net client =
      do_request_sends platform (some unmarshal) "GET" _ none sent per counts quiet_rand quiet_wait
        _

  reply_with-net :
      (code : ℕ) (prefix : Bytes) (e : GoError) (w : Backend N S) (writer : Writer)
      → (reply_with unicode_lower code prefix e w writer).world ≡ w
  reply_with-net code prefix e w writer = elim (Option-cases (error_text unicode_lower e)) [
    | inl quiet ↦ rw (quiet, reply_with) refl
    | inr (why, told) ↦ rw (told, reply_with) refl
  ]

  enqueue-net :
      (args : OnboardOrgArgs) (w : Backend N S) (writer : Writer)
      → (enqueue unicode_lower platform unmarshal pool insert_job decode args w writer).world.net
        ≡ w.net
  unfolding enqueue
  enqueue-net args w writer = ground arith

  sent-look_up :
      (req : OnboardOrgRequest) (w : Backend N S) (writer : Writer)
      → sent
          (look_up unicode_lower platform unmarshal pool insert_job decode req w writer).world.net
        ≤ 6 * per + sent w.net
  unfolding look_up
  sent-look_up req w writer = elim (Option-cases w.client) [
    | inl a ↦ rw (a, look_up) (omega arith)
    | inr (client, a) ↦
        let bound = sent-get_organization (utf8 req.client_id) w.net client in
        elim (Result-cases
          (get_organization platform unmarshal (utf8 req.client_id) w.net client).1) [
            | inr (e, b) ↦ rw (a, look_up) (rw (b, look_up) (rw reply_with-net bound))
            | inl (organization, b) ↦ rw (a, look_up) (rw (b, look_up) (rw enqueue-net bound))
          ]
  ]

  abbrev onboard : Handler (Backend N S)
  onboard = handle_onboard_org unicode_lower platform unmarshal pool insert_job decode

  sent-handle_onboard_org :
      (w : Backend N S) (r : Request) (writer : Writer)
      → sent (onboard w r writer).world.net ≤ 6 * per + sent w.net
  unfolding handle_onboard_org
  sent-handle_onboard_org w r writer = elim (decode_valid-cases decode onboard_org_valid r) [
    | inr (inr (e, a)) ↦ rw (a, handle_onboard_org) (rw reply_with-net (omega arith))
    | inr (inl (problems, a)) ↦ rw (a, handle_onboard_org) (omega arith)
    | inl (req, _, _, a) ↦ rw (a, handle_onboard_org) (sent-look_up req w writer)
  ]

  module _ {R : Type 0}
      (serve_mux : List (Route (World (Backend N S) R)) → Handler (World (Backend N S) R))
      (mux_laws : MuxLaws serve_mux) (read : R → R × Bytes) (log : LogLine → R → R) (now : R → ℤ)
      (ping : Backend N S → Option GoError)
      (decode_echo : Bytes → Option GoError → Result EchoRequest) (hmac : Bytes → Bytes → Bytes)
      (cfg : Config) where
    -- Behind a multiplexer that hands a request to a route or refuses it, and with an http client
    -- whose every call sends at most `per` requests, of which all but the first follow a redirect,
    -- the service sends at most six times `per` requests to the VCD while it answers a request,
    -- whatever the request is and whatever the VCD answers.
    pub service_sends :
        (w : World (Backend N S) R) (r : Request) (writer : Writer)
        → sent
            (service now ping decode_echo hmac onboard serve_mux read log cfg w r
              writer).world.backend.net
          ≤ 6 * per + sent w.backend.net
    service_sends w r writer =
        elim (service-Guards serve_mux mux_laws read log now ping decode_echo hmac onboard cfg w r
          writer) [
            | aside same other ↦ rw same (omega arith)
            | ordered given inner _ _ _ _ _ done _ ↦
                rw done (sent-handle_onboard_org w.backend given inner)
          ]
