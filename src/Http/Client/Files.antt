-- ===== src/Http/Client/Files.antt =====
-- Downloads and uploads of src/HTTP/client.cpp.
use components_network.Prelude.{
  ◌≡◌, ◌⊎◌, ◌↔◌, arith, String, string_key, number_key, ◌==◌, Bool, true, false, Option, none, some,
  if◌then◌else◌,
}
use components_network.Http.Types.{bytes, to_string}
use components_network.Http.Socket.{is_error}
use components_network.Http.Client.{
  verb_get, verb_post, Request, Client, Network, Outcome, exchange, with_connection, sending,
}

-- A file on disk: its path and what was written to it.
abbrev pub SavedFile : Type 0
SavedFile = Option (String × String)

unfoldable pub download_request : Client → String → Request
download_request d target = record {
  verb = verb_get;
  target = target;
  user_agent = d.client_name;
  host = d.host;
  content_type = none;
  accept = some (to_string bytes);
  body = "";
}

-- `downloadFile`: what it returns and the file that it wrote. `opens` tells whether the file can be
-- opened for writing.
unfoldable pub download_file :
    Network → Bool → Client → String → String → Outcome (Bool × SavedFile) × Client
unfolding with_connection download_request
download_file net opens d target path =
    with_connection net d (false, none)
      λ s. (
        (if is_error (exchange net)
            then none
            else (if opens
                then some (net.response.status == 200, some (path, net.response.body))
                else some (false, none))),
        sending d s (download_request d target),
      )

unfoldable pub upload_request : Client → String → String → Request
upload_request d target content = record {
  verb = verb_post;
  target = target;
  user_agent = d.client_name;
  host = d.host;
  content_type = some (to_string bytes);
  accept = none;
  body = content;
}

-- `uploadFile`, for what opening the file gives.
unfoldable pub upload_file : Network → Option String → Client → String → Outcome Bool × Client
unfolding with_connection upload_request
upload_file net none d target = (some false, d)
upload_file net (some content) d target = with_connection net d false λ s. (
  (if is_error (exchange net) then none else some (net.response.status == 200)),
  sending d s (upload_request d target content),
)

-- Where `downloadFile` returns, it either writes nothing and returns `false`, or it writes whatever
-- body came to the file that it opened, and returns whether the status was 200.
pub download_file_lem :
    (net : Network) (opens : Bool) (d : Client) (target path : String) (ok : Bool)
    (file : SavedFile)
    → (download_file net opens d target path).0 ≡ some (ok, file)
    → ((file ≡ none) × (ok ≡ false))
      ⊎ ((file ≡ some (path, net.response.body))
          × (opens ≡ true)
          × ((ok ≡ true) ↔ (net.response.status ≡ 200)))
unfolding download_file
download_file_lem net opens d target path ok file h = ground arith
