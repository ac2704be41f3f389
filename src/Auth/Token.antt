-- ===== src/Auth/Token.antt =====
-- `decode_jwt`, `extract_actor` and `AuthService::call` of server/src/auth.rs. Base64, HMAC-SHA256
-- and the derived reading of the claims come from other libraries.
pub mod Dots
pub mod Sound
use Prim.Native.Char.{Char, code}
use Prim.Native.String
use Prim.Native.String.{◌++◌}
use context_first_docs.Prelude.{
  ℕ, zero, suc, String, Option, none, some, List, [], ◌∷◌, Bool, true, false, ◌&&◌, Result, ok, err,
  ◌>>=◌, if◌then◌else◌, ltb, leb, ◌+◌, ◌||◌, ◌==◌, nat_eq, string_eq, not, is_empty,
}
use context_first_docs.Auth.{ActorType, Role, reader, ActorContext, dev_default}

pub record Claims : Type 0 where
  pub sub : String
  pub actor_type : ActorType
  pub roles : List Role
  pub exp : ℕ

pub record AuthConfig : Type 0 where
  pub disabled : Bool
  pub secret : Option String

-- `eq_ignore_ascii_case`
abbrev lower : ℕ → ℕ
lower c = if leb 65 c && leb c 90 then c + 32 else c

abbrev pub eq_ignore_ascii_case : String → String → Bool
eq_ignore_ascii_case String.[] String.[] = true
eq_ignore_ascii_case String.[] (String.◌∷◌ d t) = false
eq_ignore_ascii_case (String.◌∷◌ c s) String.[] = false
eq_ignore_ascii_case (String.◌∷◌ c s) (String.◌∷◌ d t) =
    lower (code c) == lower (code d) && eq_ignore_ascii_case s t

abbrev pub is_on : String → Bool
is_on v = v == "1" || eq_ignore_ascii_case v "true"

-- `AuthConfig::from_env`: without the variable, authentication is off.
unfoldable pub from_env : (String → Option String) → AuthConfig
from_env var = record {
  disabled = elim (var "AUTH_DISABLED") [ none ↦ true | some v ↦ is_on v ];
  secret = var "AUTH_SECRET";
}

-- The libraries: an error carries their text. `verify secret message signature` is the check of the
-- message authentication code, and `now_secs` the time since the epoch.
pub record Crypto : Type 0 where
  pub base64_decode : String → Result String (List ℕ)
  pub new_mac : String → Result String (Unit {0})
  pub verify : String → String → List ℕ → Bool
  pub parse_claims : List ℕ → Result String Claims
  pub now_secs : ℕ

-- `token.split('.')`: the parts, with the characters read so far of the current one
pub split_from : String → String → List String
split_from cur String.[] = cur ∷ []
split_from cur (String.◌∷◌ c s) =
    let closed = split_from "" s in
    let longer = split_from (cur ++ String.◌∷◌ c String.[]) s in
    if code c == b'.' then cur ∷ closed else longer

unfoldable pub split_dots : String → List String
unfolding split_from
split_dots token = split_from "" token

abbrev pub describe : {A : Type 0} → String → Result String A → Result String A
describe what (ok a) = ok a
describe what (err e) = err (what ++ e)

abbrev pub ensure : Bool → String → Result String (Unit {0})
ensure true e = ok tt
ensure false e = err e

abbrev default_roles : List Role → List Role
default_roles [] = reader ∷ []
default_roles (r ∷ rs) = r ∷ rs

abbrev pub actor_of : Claims → ActorContext
actor_of claims = record {
  actor_id = claims.sub;
  actor_type = claims.actor_type;
  roles = default_roles claims.roles;
}

-- `strip_prefix`
abbrev pub strip_prefix : String → String → Option String
strip_prefix String.[] s = some s
strip_prefix (String.◌∷◌ c p) String.[] = none
strip_prefix (String.◌∷◌ c p) (String.◌∷◌ d s) = if code c == code d then strip_prefix p s else none

abbrev pub bearer : String → Option String
bearer header = elim (strip_prefix "Bearer " header) [
  | some token ↦ some token
  | none ↦ strip_prefix "bearer " header
]

abbrev pub with_status : ℕ → Result String Claims → Result (ℕ × String) ActorContext
with_status status (ok claims) = ok (actor_of claims)
with_status status (err e) = err (status, "auth: " ++ e)

module _ (cr : Crypto) where
  -- The check of the expiry, where 0 means none.
  abbrev pub is_expired : Claims → Bool
  is_expired claims = ltb 0 claims.exp && ltb claims.exp cr.now_secs

  decode_parts : String → List String → Result String Claims
  decode_parts secret (header ∷ payload ∷ mac ∷ []) = do
    signature ← describe "invalid signature encoding: " (cr.base64_decode mac)
    ready ← describe "hmac error: " (cr.new_mac secret)
    genuine ← ensure (cr.verify secret (header ++ ("." ++ payload)) signature) "invalid signature"
    bytes ← describe "invalid payload encoding: " (cr.base64_decode payload)
    claims ← describe "invalid claims: " (cr.parse_claims bytes)
    if is_expired claims then err "token expired" else ok claims
  decode_parts secret _ = err "invalid JWT: expected 3 parts"

  unfoldable pub decode_jwt : String → String → Result String Claims
  unfolding decode_parts split_dots
  decode_jwt token secret = decode_parts secret (split_dots token)

  abbrev pub checked : String → Option String → Result (ℕ × String) ActorContext
  checked token none = err (500, "AUTH_SECRET not configured")
  checked token (some secret) = with_status 401 (decode_jwt token secret)

  abbrev pub authorised : AuthConfig → Option String → Result (ℕ × String) ActorContext
  authorised config none = err (401, "invalid Authorization scheme (expected Bearer)")
  authorised config (some token) = checked token config.secret

  -- `extract_actor`, given the `authorization` header if there is a readable one
  unfoldable pub extract_actor : Option String → AuthConfig → Result (ℕ × String) ActorContext
  unfolding decode_jwt
  extract_actor header config = if config.disabled then ok dev_default else elim header [
    | none ↦ err (401, "missing Authorization header")
    | some h ↦ authorised config (bearer h)
  ]

  -- `AuthService::call`: the inner service sees the request only with an actor
  unfoldable pub call {ℓ} :
      {Response : Type ℓ}
      → (ℕ → Response)
      → (ActorContext → Response)
      → Option String
      → AuthConfig
      → Response
  unfolding extract_actor
  call refuse inner header config = elim (extract_actor header config) [
    | ok actor ↦ inner actor
    | err (status, message) ↦ refuse status
  ]

  -- What holds of every refusal and of every answer to an actor holds of the response.
  pub call-cases {ℓ} :
      {Response : Type ℓ} (P : Response → Type 0) (refuse : ℕ → Response)
      (inner : ActorContext → Response) (header : Option String) (config : AuthConfig)
      → ((status : ℕ) → P (refuse status))
      → ((actor : ActorContext) → P (inner actor))
      → P (call refuse inner header config)
  unfolding call
  call-cases P refuse inner header config refused answered =
      elim (extract_actor header config)
        as (λ r. P (elim r [ ok actor ↦ inner actor | err (status, message) ↦ refuse status ])) [
          | ok actor ↦ answered actor
          | err (status, message) ↦ refused status
        ]
