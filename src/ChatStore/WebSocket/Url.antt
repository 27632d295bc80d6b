-- ===== src/ChatStore/WebSocket/Url.antt =====
-- webSocket/url.ts: the address of a node as the URL of a socket.
pub mod Security
use gpt.Prelude.{
  String, Bool, ◌||◌, ◌==◌, if◌then◌else◌, Result, ok, err, ◌^^◌, is_empty, starts_with, includes,
  drop_text, replace_first, strip_prefix, trim,
}

unfoldable pub is_localhost : String → Bool
is_localhost address = includes address "localhost" || includes address "127.0.0.1"

-- `address.replace(/^https?:\/\//, "")`
unfoldable pub strip_http : String → String
strip_http address =
    if starts_with address "https://"
    then drop_text 8 address
    else if starts_with address "http://"
    then drop_text 7 address
    else address

unfoldable pub default_to_wss : String → Result String
default_to_wss bare =
    if includes bare "://"
    then err ("Invalid characters in node address after scheme removal: " ^^ bare)
    else ok ("wss://" ^^ bare)

-- From the test for `wss://` on.
unfoldable pub enforce_wss : String → Result String
enforce_wss address =
    if starts_with address "wss://"
    then ok address
    else default_to_wss (strip_prefix "ws://" (strip_http address))

unfoldable pub build_web_socket_url : String → Result String
build_web_socket_url node_address =
    let address = trim node_address in
    if is_empty node_address || address == ""
    then err "Invalid node address provided: cannot be empty."
    else if starts_with address "ws://"
    then (if is_localhost address
        then ok address
        else enforce_wss (replace_first address "ws://" "wss://"))
    else enforce_wss address
