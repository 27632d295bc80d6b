-- ===== src/ChatStore/WebSocket/Url/Security.antt =====
-- Which URLs a socket is opened to.
use text.Mathlib.TextPositions.{starts_with-append}
use gpt.Prelude.{strip_prefix, trim, replace_first, String, ◌≡◌, ◌⊎◌, true, arith, ok, starts_with}
use gpt.ChatStore.WebSocket.Url.{
  is_localhost, strip_http, default_to_wss, enforce_wss, build_web_socket_url,
}

abbrev pub IsSecure : String → Type 0
IsSecure url =
    (starts_with url "wss://" ≡ true)
    ⊎ ((starts_with url "ws://" ≡ true) × (is_localhost url ≡ true))

default_to_wss-secure :
    (bare url : String) → default_to_wss bare ≡ ok url → starts_with url "wss://" ≡ true
unfolding default_to_wss
default_to_wss-secure bare url e = ground (arith, starts_with-append "wss://" bare)

enforce_wss-secure :
    (address url : String) → enforce_wss address ≡ ok url → starts_with url "wss://" ≡ true
unfolding enforce_wss
enforce_wss-secure address url e =
    ground (arith, default_to_wss-secure (strip_prefix "ws://" (strip_http address)) url)

-- Every address that is built is encrypted, or is an unencrypted one that mentions the local host.
pub build_web_socket_url-IsSecure :
    (node_address url : String) → build_web_socket_url node_address ≡ ok url → IsSecure url
unfolding build_web_socket_url
build_web_socket_url-IsSecure node_address url e = ground (
  arith,
  enforce_wss-secure (trim node_address) url,
  enforce_wss-secure (replace_first (trim node_address) "ws://" "wss://") url,
)
