-- ===== src/Legacy/OldHttp/Answers.antt =====
-- `ClientSession::processRequest` of Legacy/Implementation/HTTP/clientsession.cpp.
use components_network.Prelude.{ℕ, Bytes, String, [], ◌∷◌, ◌++◌, Option, none, some, length}

-- `Server::ResponseType` and `Server::ResponseResult`.
pub data ResponseType : Type 0 where
  error_text plain_text html json : ResponseType

pub data ResponseResult : Type 0 where
  ok not_found bad_request not_implemented no_content unauthorized : ResponseResult

-- `Server::PacketMeta`.
pub record PacketMeta : Type 0 where
  pub response_result : ResponseResult
  pub response_type : ResponseType
  pub session_id : Bytes
  pub target : Bytes
  pub body : Bytes

abbrev pub Processor : Type 0
Processor = PacketMeta → PacketMeta

-- `none` is an empty `std::function`, which throws when it is called.
pub record Processors : Type 0 where
  pub request_get : Option Processor
  pub request_post : Option Processor
  pub request_put : Option Processor
  pub request_delete : Option Processor

-- The verb of a request, and its text for those that the switch does not name.
pub data Verb : Type 0 where
  get post put delete : Verb
  other : Bytes → Verb

pub record Request : Type 0 where
  pub method : Verb
  pub version : ℕ
  pub target : Bytes
  pub body : Bytes

-- What is set of a response beside the name of the server and `keep_alive(false)`. The length is
-- `none` where it is not set.
pub record Response : Type 0 where
  pub version : ℕ
  pub result : ℕ
  pub content_type : String
  pub body : Bytes
  pub content_length : Option ℕ

abbrev pub content_type_of : ResponseType → String
content_type_of error_text = "text/plain"
content_type_of plain_text = "text/plain"
content_type_of html = "text/html"
content_type_of json = "application/json"

abbrev pub status_of : ResponseResult → ℕ
status_of ok = 200
status_of bad_request = 400
status_of not_found = 404
status_of not_implemented = 501
status_of no_content = 204
status_of unauthorized = 401

-- The text `{"info":"Unknown method: `, a name, and a quotation mark.
abbrev pub unknown_method : Bytes → Bytes
unknown_method name =
    (123 ∷ 34 ∷ 105 ∷ 110 ∷ 102 ∷ 111 ∷ 34 ∷ 58 ∷ 34 ∷ 85 ∷ 110 ∷ 107 ∷ 110 ∷ 111 ∷ 119 ∷ 110 ∷ 32
      ∷ 109 ∷ 101 ∷ 116 ∷ 104 ∷ 111 ∷ 100 ∷ 58 ∷ 32 ∷ [])
    ++ name
    ++ 34 ∷ []

abbrev pub refused : ℕ → Bytes → Response
refused version name = record {
  version = version;
  result = 400;
  content_type = "text/plain";
  body = unknown_method name;
  content_length = none;
}

abbrev pub written_of : ℕ → PacketMeta → Response
written_of version response = record {
  version = version;
  result = status_of response.response_result;
  content_type = content_type_of response.response_type;
  body = response.body;
  content_length = some (length response.body);
}

abbrev pub called : ℕ → Option Processor → PacketMeta → Option Response
called version none meta = none
called version (some f) meta = some (written_of version (f meta))

abbrev pub dispatch : Processors → ℕ → Verb → PacketMeta → Option Response
dispatch ps version get meta = called version ps.request_get meta
dispatch ps version post meta = called version ps.request_post meta
dispatch ps version put meta = called version ps.request_put meta
dispatch ps version delete meta = called version ps.request_delete meta
dispatch ps version (other name) meta = some (refused version name)

abbrev pub meta_of : Request → Bytes → PacketMeta
meta_of request session_id = record {
  response_result = bad_request;
  response_type = plain_text;
  session_id = session_id;
  target = request.target;
  body = request.body;
}

-- `processRequest`, for the hash of the address of the other side: `none` for both if the socket has
-- none, which is an exception.
unfoldable pub process_request : Processors → Request → Option Bytes → Option Response
process_request ps request none = none
process_request ps request (some session_id) =
    dispatch ps request.version request.method (meta_of request session_id)
