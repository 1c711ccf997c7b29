-- ===== src/Http/Exchange/Transfers.antt =====
-- Downloads and uploads of src/HTTP/client.cpp with a connection of src/HTTP/server.cpp.
use components_network.Prelude.{
  ℕ, ◌≡◌, refl, ap, ◌∙◌, String, true, false, Bool, List, [], ◌∷◌, none, some, if◌then◌else◌, arith,
  number_key, ◌==◌,
}
use components_network.Http.Types.{
  get, post, Packet, fresh, bytes, Reasons, create_error_packet, named, from_string-to_string-named,
}
use components_network.Http.Socket.{is_error, Socket}
use components_network.Http.Client.{
  Response, Client, Network, Outcome, is_connected, connect_by_kind, connect_to_host, exchange,
}
use components_network.Http.Client.Files.{
  SavedFile, download_file, download_request, upload_file, upload_request,
}
use components_network.Http.Session.{
  Session, Answer, Reply, response, error_response, Files, Surroundings, packet_of, bad_request,
}
use components_network.Http.Session.Answers.{all_sent, sent_of}
use components_network.Http.Server.{Processors, handle_method, method_processors}
use components_network.Http.Exchange.{
  written_by, on_read-written, message_of, response_of, answered_by, first_answer,
  with_connection-connect_to_host,
}

-- The request of a download, and of an upload, as the processor gets it.
abbrev pub asking : String → Packet
asking target = record fresh { target = target }

abbrev pub giving : String → String → Packet
giving target content = record fresh { target = target; body = content; body_type = named bytes }

packet_of-upload_request :
    (d : Client) (target content : String)
    → packet_of (message_of (upload_request d target content)) ≡ giving target content
unfolding packet_of upload_request
packet_of-upload_request d target content i = record fresh {
  target = target;
  body = content;
  body_type = from_string-to_string-named bytes i;
}

-- What a reply is on the wire: its status and its text.
abbrev pub wired : Files → Reasons → Reply → ℕ × String
wired files reason (error_response status) = (status, reason status)
wired files reason (response q) =
    if q.is_file
    then elim (files q.target) [
      | none ↦ (bad_request, reason bad_request)
      | some content ↦ (q.status_code, content)
    ]
    else (q.status_code, q.body)

sent_of-wired :
    (files : Files) (reason : Reasons) (name : String) (r : Reply)
    → ((sent_of files reason name r).status, (sent_of files reason name r).body)
      ≡ wired files reason r
unfolding create_error_packet
sent_of-wired files reason name (error_response status) = refl
sent_of-wired files reason name (response q) = ground arith

-- What a download makes of the first reply.
abbrev pub downloaded : Files → Reasons → Bool → String → Reply → Bool × SavedFile
downloaded files reason opens path r =
    let (status, text) = wired files reason r in
    if opens then (status == 200, some (path, text)) else (false, none)

loaded :
    (net : Network) (opens : Bool) (d : Client) (k : Socket) (target path : String)
    → connect_to_host net d.socket ≡ some (k, true)
    → (download_file net opens d target path).0 ≡ (
        if is_error (exchange net)
        then none
        else (if opens
            then some (net.response.status == 200, some (path, net.response.body))
            else some (false, none)))
unfolding download_file
loaded net opens d k target path c = ap (λ r. r.0) (with_connection-connect_to_host net d k _ _ c)

stored :
    (net : Network) (content : String) (d : Client) (k : Socket) (target : String)
    → connect_to_host net d.socket ≡ some (k, true)
    → (upload_file net (some content) d target).0
      ≡ (if is_error (exchange net) then none else some (net.response.status == 200))
unfolding upload_file
stored net content d k target c = ap (λ r. r.0) (with_connection-connect_to_host net d k _ _ c)

-- The same, by the status and the text of the answer.
abbrev outcome : Bool → String → ℕ × String → Outcome (Bool × SavedFile)
outcome opens path t = if opens then some (t.0 == 200, some (path, t.1)) else some (false, none)

opened :
    (files : Files) (reason : Reasons) (opens : Bool) (path : String) (r : Reply)
    → outcome opens path (wired files reason r) ≡ some (downloaded files reason opens path r)
opened files reason true path r = refl
opened files reason false path r = refl

-- A download by a client for which `connectToHost` gives a connection to a server, where nothing was
-- written on it yet, on a network without errors whose wire carries the first answer `a` unchanged.
-- Where `r` is the first reply of the processor for the target, or the error of the server if there is
-- no such processor: if the file opens it holds what `r` says, the content of the file of the
-- server that it names or its text, also the text of an error; the result is whether the status is
-- 200. If the file does not open the result is `false`.
pub download_file-on_read :
    (w : Surroundings) (s : Session) (ps : Processors) (wire : Answer → Response) (net : Network)
    (opens : Bool) (d : Client) (k : Socket) (target path : String) (a : Answer)
    (later : List Answer) (r : Reply) (rs : List Reply)
    → s.processors ≡ method_processors ps
    → s.sent ≡ []
    → connect_to_host net d.socket ≡ some (k, true)
    → is_error (exchange net) ≡ false
    → handle_method ps (asking target) get ≡ r ∷ rs
    → written_by w s (download_request d target) ≡ a ∷ later
    → wire a ≡ response_of a
    → (download_file (answered_by wire net a) opens d target path).0
      ≡ some (downloaded w.files w.reason opens path r)
unfolding download_request packet_of connect_to_host is_connected connect_by_kind
download_file-on_read w s ps wire net opens d k target path a later r rs p n c x replies wrote t =
    let name = s.self_server_name in
    let first =
      first_answer w.files w.reason name _ later a _ rs r
        (on_read-written w s ps (download_request d target) p n) wrote replies in
    let seen : (a.status, a.body) ≡ wired w.files w.reason r =
      ap (λ b. (b.status, b.body)) first ∙ sent_of-wired w.files w.reason name r in
    loaded (answered_by wire net a) opens d k target path c
    ∙ ap (λ b. if b then none else outcome opens path ((wire a).status, (wire a).body)) x
    ∙ ap (λ res. outcome opens path (res.status, res.body)) t
    ∙ ap (outcome opens path) seen
    ∙ opened w.files w.reason opens path r

-- An upload of a file that opens, by such a client, under the same conditions: the processor for the
-- target gets the content of the file with the type of bytes, and the result is whether the status of
-- its first reply, or of the error of the server if there is no such processor, is 200.
pub upload_file-on_read :
    (w : Surroundings) (s : Session) (ps : Processors) (wire : Answer → Response) (net : Network)
    (content : String) (d : Client) (k : Socket) (target : String) (a : Answer)
    (later : List Answer) (r : Reply) (rs : List Reply)
    → s.processors ≡ method_processors ps
    → s.sent ≡ []
    → connect_to_host net d.socket ≡ some (k, true)
    → is_error (exchange net) ≡ false
    → handle_method ps (giving target content) post ≡ r ∷ rs
    → written_by w s (upload_request d target content) ≡ a ∷ later
    → wire a ≡ response_of a
    → (upload_file (answered_by wire net a) (some content) d target).0
      ≡ some ((wired w.files w.reason r).0 == 200)
unfolding upload_request connect_to_host is_connected connect_by_kind
upload_file-on_read w s ps wire net content d k target a later r rs p n c x replies wrote t =
    let name = s.self_server_name in
    let given =
      on_read-written w s ps (upload_request d target content) p n
      ∙ ap (λ pkt. all_sent w.files w.reason name (handle_method ps pkt post))
          (packet_of-upload_request d target content) in
    let first = first_answer w.files w.reason name _ later a _ rs r given wrote replies in
    let seen : (a.status, a.body) ≡ wired w.files w.reason r =
      ap (λ b. (b.status, b.body)) first ∙ sent_of-wired w.files w.reason name r in
    stored (answered_by wire net a) content d k target c
    ∙ ap (λ b. if b then none else some ((wire a).status == 200)) x
    ∙ ap (λ res. some (res.status == 200)) t
    ∙ ap (λ (u : ℕ × String). some (u.0 == 200)) seen
