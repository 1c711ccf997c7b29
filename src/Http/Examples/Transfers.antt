-- ===== src/Http/Examples/Transfers.antt =====
-- A file of the server that is downloaded, and a file that is uploaded.
use components_network.Prelude.{String, ◌≡◌, refl, true, false, [], ◌∷◌, some, none}
use components_network.Prelude.Assoc.{find, insert}
use components_network.Http.Types.{get, post, fresh, from_string, to_string}
use components_network.Http.Socket.{Socket, plain, success}
use components_network.Http.Client.{Client, Network, is_connected, connect_by_kind, connect_to_host}
use components_network.Http.Client
use components_network.Http.Client.Files.{
  download_file, download_request, upload_file, upload_request,
}
use components_network.Http.Session.{
  Session, Answer, response, Surroundings, on_read, packet_of, replies_to, send_response,
  handle_requests,
}
use components_network.Http.Session
use components_network.Http.Server.{Processors, handle_method, method_processors}
use components_network.Http.Exchange.{response_of, answered_by}
use components_network.Http.Exchange.Transfers.{giving, download_file-on_read, upload_file-on_read}

abbrev open_socket : Socket
open_socket = record { kind = plain; is_open = true }

abbrev network : Network
network = record {
  peek = success;
  resolves = true;
  accepts_host_name = true;
  connect = success;
  leaves_open = true;
  handshake = success;
  shutdown = record { tls = success; tcp = success };
  write = success;
  read = success;
  response = record { status = 200; content_type = none; body = "" };
}

abbrev around : Surroundings
around = record {
  files = λ path. some "content";
  reason = λ status. "reason";
  shutdown = record { tls = success; tcp = success };
  handshake = success;
  indeterminate = get;
}

abbrev processors : Processors
processors =
    (
      "/file",
      (get, λ pkt. record fresh { target = "stored"; is_file = true; status_code = 200 } ∷ [])
          ∷ (post, λ pkt. record pkt { status_code = 200 } ∷ [])
          ∷ [],
    )
    ∷ []

abbrev session : Session
session = record (Session.new "test" open_socket 7) { processors = method_processors processors }

abbrev client : Client
client = Client.new false false

abbrev answer_of : String → String → Answer
answer_of content_type body = record {
  version = 11;
  server = "test";
  content_type = content_type;
  status = 200;
  body = body;
}

download_file-on_read_example :
    (download_file
      (answered_by response_of network (answer_of "text/plain" "content"))
      true
      client
      "/file"
      "saved").0
    ≡ some (true, some ("saved", "content"))
unfolding Client.new Session.new is_connected connect_by_kind connect_to_host on_read find insert
    download_request packet_of handle_method method_processors replies_to send_response
    handle_requests from_string to_string
download_file-on_read_example =
    download_file-on_read around session processors response_of network true client open_socket
      "/file" "saved" (answer_of "text/plain" "content") []
      (response (record fresh { target = "stored"; is_file = true; status_code = 200 })) [] refl
      refl refl refl refl refl refl

upload_file-on_read_example :
    (upload_file
      (answered_by response_of network (answer_of "application/octet-stream" "content"))
      (some "content")
      client
      "/file").0
    ≡ some true
unfolding Client.new Session.new is_connected connect_by_kind connect_to_host on_read find insert
    upload_request packet_of handle_method method_processors replies_to send_response
    handle_requests from_string to_string
upload_file-on_read_example =
    upload_file-on_read around session processors response_of network "content" client open_socket
      "/file" (answer_of "application/octet-stream" "content") []
      (response (record (giving "/file" "content") { status_code = 200 })) [] refl refl refl refl
      refl refl refl
