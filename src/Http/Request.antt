-- ===== src/Http/Request.antt =====
-- Requests: include/gateway/http/request.h and src/http/request.cpp. The headers are only searched
-- and overwritten by key, so their order is left open.
use api_gateway.Prelude.{Bytes, bytes, Bool, false, ◌||◌, Option, none, some, List, [], text_eq}
use api_gateway.Prelude.Map.{bytes_key, lookup}
use api_gateway.Http.Text.{contains_word}

pub record HttpRequest : Type 0 where
  pub method : Bytes
  pub path : Bytes
  pub version : Bytes
  pub headers : List (Bytes × Bytes)
  pub body : Bytes

abbrev pub empty_request : HttpRequest
empty_request = record { method = []; path = []; version = []; headers = []; body = [] }

says_keep_alive : Option Bytes → Bool
says_keep_alive none = false
says_keep_alive (some v) = contains_word (bytes "keep-alive") v

unfoldable pub request_keep_alive : HttpRequest → Bool
unfolding says_keep_alive
request_keep_alive req =
    says_keep_alive (lookup (bytes "connection") req.headers)
    || text_eq req.version (bytes "HTTP/1.1")
