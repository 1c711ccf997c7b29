-- ===== src/Legacy/OldHttp/Timeout.antt =====
-- `ClientSession::restartTimeout` of Legacy/Implementation/HTTP/clientsession.cpp, which nothing calls.
use components_network.Prelude.{
  ◌≡◌, ◌≢◌, Bool, true, false, List, [], ◌∷◌, ◌++◌, none, arith, if◌then◌else◌,
}
use components_network.Legacy.OldHttp.Answers.{Request, Response}

-- A session with its timer: is it waited for, is a write of the timeout outstanding, and was the
-- sending side of the socket shut down?
pub record ClientSession : Type 0 where
  pub request : Request  -- m_request
  pub response : Response  -- m_response
  pub waiting : Bool
  pub writing : Bool
  pub shut : Bool
  pub sent : List Response

-- A response that nothing was set of.
abbrev pub empty_response : Response
empty_response = record {
  version = 11;
  result = 200;
  content_type = "";
  body = [];
  content_length = none;
}

-- The wait that was begun before is called off, and its handler does nothing.
unfoldable pub restart_timeout : ClientSession → ClientSession
restart_timeout s = record s { waiting = true }

-- `timeoutResponse`, which is a local variable of the handler.
abbrev pub timeout_response : ClientSession → Response
timeout_response s = record empty_response { version = s.request.version; result = 504 }

-- The handler of the timer, for whether it has an error: `timeoutResponse` is made, and `m_response`
-- is written.
unfoldable pub on_deadline : Bool → ClientSession → ClientSession
on_deadline failed s =
    if failed
    then record s { waiting = false }
    else record s { waiting = false; writing = true; sent = s.sent ++ s.response ∷ [] }

-- The handler of that write. The other side may be gone, where `shutdown` throws.
unfoldable pub on_written : Bool → ClientSession → ClientSession
on_written shutdown_throws s =
    if shutdown_throws
    then record s { writing = false }
    else record s { writing = false; shut = true; waiting = false }

-- A session that has answered nothing tells a client whose time is out that all went well.
pub on_deadline-restart_timeout :
    (s : ClientSession)
    → s.response ≡ empty_response
    → ((on_deadline false (restart_timeout s)).sent ≡ s.sent ++ empty_response ∷ [])
      × (empty_response ≢ timeout_response s)
unfolding on_deadline restart_timeout
on_deadline-restart_timeout s e = (ground (arith, e), λ h. ground (arith, h))
