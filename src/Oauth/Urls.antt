-- ===== src/Oauth/Urls.antt =====
-- internal/auth/oauth.go: EquivalentResourceURI and ValidOAuthRedirectURI. net/url, net and the case
-- mapping of Unicode are parameters.
use nexusdock.Shared.{
  String, str_eq, is_empty, codes, trim_space, text_append, List, Option, none, some, Bool, true,
  false, ◌&&◌, ◌||◌, not, any, ◌==◌, if◌then◌else◌,
}

-- A parsed URL (url.URL); `rest` is its path and its query.
pub record Url : Type 0 where
  pub scheme : String
  pub has_user : Bool
  pub host : String
  pub opaque : String
  pub rest : String
  pub fragment : String

-- What the code takes from the Go library: SHA-256 as hexadecimal text and as base64url text; the
-- parts of net/url; strings.ToLower; whether a text is a loopback address, net.ParseIP(s) with
-- IsLoopback; and JSON of a list of texts.
pub record Encodings : Type 0 where
  pub digest : String → String
  pub challenge : String → String
  pub parse_url : String → Option Url
  pub print_url : Url → String
  pub hostname : String → String
  pub port : String → String
  pub to_lower : String → String
  pub is_loopback : String → Bool
  pub encode_texts : List String → String
  pub decode_texts : String → Option (List String)

abbrev default_port : String → String → Bool
default_port scheme port =
    (str_eq scheme "https" && str_eq port "443") || (str_eq scheme "http" && str_eq port "80")

abbrev bracketed : String → String
bracketed name =
    if any (λ c. c == b':') (codes name) then text_append "[" (text_append name "]") else name

abbrev with_port : String → String → String
with_port name port = if is_empty port then name else text_append name (text_append ":" port)

-- canonicalOAuthResourceURI of a URL whose scheme is in lower case.
abbrev canonical_url : Encodings → Url → String
canonical_url p u =
    let found = p.port u.host in
    let port = if default_port u.scheme found then "" else found in
    p.print_url (record u { host = with_port (bracketed (p.to_lower (p.hostname u.host))) port })

abbrev is_web : String → Bool
is_web scheme = str_eq scheme "http" || str_eq scheme "https"

abbrev canonical_parsed : Encodings → Option Url → Option String
canonical_parsed p none = none
canonical_parsed p (some u) =
    if is_empty u.scheme || is_empty u.host || u.has_user || not (is_empty u.fragment)
    then none
    else if not (is_web (p.to_lower u.scheme))
    then none
    else some (canonical_url p (record u { scheme = p.to_lower u.scheme }))

-- canonicalOAuthResourceURI.
unfoldable pub canonical_resource : Encodings → String → Option String
canonical_resource p raw = canonical_parsed p (p.parse_url (trim_space raw))

abbrev both : Option String → Option String → Bool
both (some a) (some b) = str_eq a b
both _ _ = false

-- EquivalentResourceURI.
unfoldable pub equivalent_resource : Encodings → String → String → Bool
unfolding canonical_resource
equivalent_resource p a b = both (canonical_resource p a) (canonical_resource p b)

-- The callbacks of known desktop clients.
abbrev is_known_callback : String → Bool
is_known_callback raw =
    str_eq raw "grokbot://mcp/oauth/callback"
    || str_eq raw "cursor://anysphere.cursor-mcp/oauth/callback"

abbrev redirect_parsed : Encodings → Option Url → Bool
redirect_parsed p none = false
redirect_parsed p (some u) =
    if is_empty u.scheme
      || is_empty u.host
      || u.has_user
      || not (is_empty u.fragment)
      || not (is_empty u.opaque)
    then false
    else if str_eq (p.to_lower u.scheme) "https"
    then true
    else if str_eq (p.to_lower u.scheme) "http"
    then (let host = p.to_lower (p.hostname u.host) in
        str_eq host "localhost" || p.is_loopback host)
    else false

-- ValidOAuthRedirectURI.
unfoldable pub valid_redirect_uri : Encodings → String → Bool
valid_redirect_uri p raw =
    let text = trim_space raw in
    if is_known_callback text then true else redirect_parsed p (p.parse_url text)
