-- ===== src/Daemon/Security.antt =====
-- internal/daemon/security.go and wsHandshake of ws.go. A request has the headers that are read;
-- GenerateToken draws random bytes and is not modelled. `is_loopback_v6` is net.ParseIP and
-- IsLoopback for a text whose first separator is a colon; an IPv4 address is parsed here.
pub mod Token
use Prim.Native.Char.{Char, code}
use smart_buster.Prelude.{
  ℕ, ◌+◌, ◌*◌, ◌-◌, Bool, true, false, not, ◌&&◌, ◌||◌, Option, none, some, List, [], ◌∷◌, map,
  String, str_eq, leb, ltb, ◌==◌, if◌then◌else◌, length,
}
use smart_buster.Prelude.Text.{append, split, has_prefix, trim_prefix}
use smart_buster.Seed.Provenance.{is_member}

pub record Security : Type 0 where
  pub token : String
  pub allowed_origins : List String

-- The port is its decimal text.
unfoldable pub new_security : String → String → String → Security
unfolding append
new_security token own_bind port =
    let bind = if str_eq own_bind "" then "127.0.0.1" else own_bind in
    let at : String → String = λ host. append "http://" (append host (append ":" port)) in
    record {
      token = token;
      allowed_origins =
          if str_eq bind "127.0.0.1" then at bind ∷ at "localhost" ∷ [] else at bind ∷ [];
    }

-- Authorization, Origin and the parsed Sec-WebSocket-Protocol
pub record Headers : Type 0 where
  pub authorization : String
  pub origin : String
  pub protocols : List String

unfoldable pub check_token : Security → Headers → Bool
unfolding has_prefix trim_prefix
check_token sec r =
    has_prefix r.authorization "Bearer " && str_eq (trim_prefix r.authorization "Bearer ") sec.token

unfoldable pub check_ws_protocol_token : Security → List String → Bool
check_ws_protocol_token sec [] = false
check_ws_protocol_token sec (p ∷ []) = str_eq p sec.token
check_ws_protocol_token sec (p ∷ q ∷ ps) = false

unfoldable pub check_origin : Security → Headers → Bool
unfolding is_member
check_origin sec r = if str_eq r.origin "" then true else is_member r.origin sec.allowed_origins

pub data Handshake : Type 0 where
  upgraded origin_not_allowed invalid_token : Handshake

unfoldable pub ws_handshake : Security → Headers → Handshake
unfolding check_origin check_ws_protocol_token
ws_handshake sec r =
    if not (check_origin sec r)
    then origin_not_allowed
    else if not (check_ws_protocol_token sec r.protocols)
    then invalid_token
    else upgraded

-- The decimal number of a field of one to three digits without a leading zero
abbrev pub is_digit : ℕ → Bool
is_digit d = leb b'0' d && leb d b'9'

unfoldable pub digits : ℕ → String → Option ℕ
digits acc String.[] = some acc
digits acc (String.◌∷◌ c s) =
    let rest = digits (acc * 10 + (code c - b'0')) s in if is_digit (code c) then rest else none

unfoldable pub octet : String → Option ℕ
unfolding digits
octet String.[] = none
octet (String.◌∷◌ c String.[]) = digits 0 (String.◌∷◌ c "")
octet (String.◌∷◌ c (String.◌∷◌ d s)) =
    if code c == b'0' then none else elim (digits 0 (String.◌∷◌ c (String.◌∷◌ d s))) [
      | none ↦ none
      | some n ↦ if leb n 255 then some n else none
    ]

abbrev pub first_octet : List (Option ℕ) → Option ℕ
first_octet (some a ∷ some b ∷ some c ∷ some d ∷ []) = some a
first_octet _ = none

unfoldable pub parse_ipv4 : String → Option ℕ
unfolding octet split
parse_ipv4 s = first_octet (map octet (split b'.' s))

-- Whether a colon is the first of the separators
unfoldable pub is_v6_text : String → Bool
is_v6_text String.[] = false
is_v6_text (String.◌∷◌ c s) =
    let rest = is_v6_text s in
    if code c == b':' then true else if code c == b'.' || code c == b'%' then false else rest

pub data Bind : Type 0 where
  bind_quiet bind_warn bind_refused : Bind

abbrev pub is_127 : Option ℕ → Bool
is_127 none = false
is_127 (some a) = a == 127

unfoldable pub is_loopback : (String → Bool) → String → Bool
unfolding parse_ipv4 is_v6_text
is_loopback is_loopback_v6 bind =
    if is_v6_text bind then is_loopback_v6 bind else is_127 (parse_ipv4 bind)

unfoldable pub validate_bind : (String → Bool) → String → Bool → Bind
unfolding is_loopback
validate_bind is_loopback_v6 bind allow_remote =
    if str_eq bind "" || str_eq bind "localhost"
    then bind_quiet
    else if is_loopback is_loopback_v6 bind
    then bind_quiet
    else if allow_remote
    then bind_warn
    else bind_refused
