-- ===== src/Auth/Token/Sound.antt =====
-- What a request that `extract_actor` of server/src/auth.rs lets in has shown.
use Prim.Native.String.{◌++◌}
use text.Mathlib.TextLemmas.{nil-append}
use context_first_docs.Prelude.{
  ℕ, String, Option, none, some, List, [], ◌∷◌, ◌≡◌, refl, sym, ap, ◌∙◌, arith, Bool, true, false,
  nat_eq, if◌then◌else◌, Result, ok, err, >>=-eq-ok,
}
use context_first_docs.Auth.{ActorContext}
use context_first_docs.Auth.Token.{
  Claims, AuthConfig, Crypto, split_dots, describe, ensure, is_expired, decode_parts, decode_jwt,
  actor_of, bearer, with_status, checked, authorised, extract_actor,
}
use context_first_docs.Auth.Token.Dots.{join_dots, join_dots-split_from}

describe-ok :
    {A : Type 0} (what : String) (r : Result String A) {a : A} → describe what r ≡ ok a → r ≡ ok a
describe-ok what (ok a) e = e
describe-ok what (err x) e = cc

-- The token is a header, a payload and a code, joined by dots; the code is that of the header and
-- the payload under the secret; the payload reads as the claims, and they have not expired.
pub record Shows (cr : Crypto) (token secret : String) (claims : Claims) : Type 0 where
  pub header : String
  pub payload : String
  pub mac : String
  pub signature : List ℕ
  pub bytes : List ℕ
  pub token_is : token ≡ header ++ ("." ++ (payload ++ ("." ++ mac)))
  pub signature_is : cr.base64_decode mac ≡ ok signature
  pub genuine : cr.verify secret (header ++ ("." ++ payload)) signature ≡ true
  pub payload_is : cr.base64_decode payload ≡ ok bytes
  pub claims_are : cr.parse_claims bytes ≡ ok claims
  pub alive : is_expired cr claims ≡ false

-- What the three parts of an accepted token have shown.
record PartsShow (cr : Crypto) (header payload mac secret : String) (claims : Claims) : Type 0 where
  signature : List ℕ
  bytes : List ℕ
  signature_is : cr.base64_decode mac ≡ ok signature
  genuine : cr.verify secret (header ++ ("." ++ payload)) signature ≡ true
  payload_is : cr.base64_decode payload ≡ ok bytes
  claims_are : cr.parse_claims bytes ≡ ok claims
  alive : is_expired cr claims ≡ false

unless_expired :
    (b : Bool) (c claims : Claims)
    → ◌≡◌ {A = Result String Claims} (if b then err "token expired" else ok c) (ok claims)
    → (b ≡ false) × (c ≡ claims)
unless_expired true c claims e = cc
unless_expired false c claims e = (refl, cc)

ensure-ok : (b : Bool) (e : String) {t : Unit {0}} → ensure b e ≡ ok t → b ≡ true
ensure-ok true e h = refl
ensure-ok false e h = cc

decode_parts-three :
    (cr : Crypto) (secret header payload mac : String) (claims : Claims)
    → decode_parts cr secret (header ∷ payload ∷ mac ∷ []) ≡ ok claims
    → PartsShow cr header payload mac secret claims
unfolding decode_parts
decode_parts-three cr secret header payload mac claims e =
    let (signature, a, e1) =
      >>=-eq-ok (describe "invalid signature encoding: " (cr.base64_decode mac)) _ e in
    let (ready, b, e2) = >>=-eq-ok (describe "hmac error: " (cr.new_mac secret)) _ e1 in
    let (genuine, c, e3) =
      >>=-eq-ok
        (ensure (cr.verify secret (header ++ ("." ++ payload)) signature) "invalid signature") _
        e2 in
    let (bytes, d, e4) =
      >>=-eq-ok (describe "invalid payload encoding: " (cr.base64_decode payload)) _ e3 in
    let (found, f, e5) = >>=-eq-ok (describe "invalid claims: " (cr.parse_claims bytes)) _ e4 in
    let (alive, same) = unless_expired (is_expired cr found) found claims e5 in
    record {
      signature = signature;
      bytes = bytes;
      signature_is = describe-ok "invalid signature encoding: " (cr.base64_decode mac) a;
      genuine =
          ensure-ok (cr.verify secret (header ++ ("." ++ payload)) signature) "invalid signature" c;
      payload_is = describe-ok "invalid payload encoding: " (cr.base64_decode payload) d;
      claims_are = describe-ok "invalid claims: " (cr.parse_claims bytes) f ∙ ap ok same;
      alive = rw same at alive;
    }

decode_parts-Shows :
    (cr : Crypto) (token secret : String) (claims : Claims) (parts : List String)
    → token ≡ join_dots parts
    → decode_parts cr secret parts ≡ ok claims
    → Shows cr token secret claims
unfolding decode_parts
decode_parts-Shows cr token secret claims (header ∷ payload ∷ mac ∷ []) e h =
    let shown = decode_parts-three cr secret header payload mac claims h in
    record {
      header = header;
      payload = payload;
      mac = mac;
      signature = shown.signature;
      bytes = shown.bytes;
      token_is = e;
      signature_is = shown.signature_is;
      genuine = shown.genuine;
      payload_is = shown.payload_is;
      claims_are = shown.claims_are;
      alive = shown.alive;
    }
decode_parts-Shows cr token secret claims _ e h = cc

-- Every token that is decoded has shown its claims.
pub decode_jwt-Shows :
    (cr : Crypto) (token secret : String) (claims : Claims)
    → decode_jwt cr token secret ≡ ok claims
    → Shows cr token secret claims
unfolding decode_jwt
decode_jwt-Shows cr token secret claims h =
    decode_parts-Shows cr token secret claims (split_dots token)
      (sym (join_dots-split_from "" token ∙ nil-append token)) h

-- Why a request was let in.
pub record Admitted (cr : Crypto) (header : Option String) (config : AuthConfig)
    (actor : ActorContext) : Type 0 where
  pub text : String
  pub token : String
  pub secret : String
  pub claims : Claims
  pub header_is : header ≡ some text
  pub bearer_is : bearer text ≡ some token
  pub secret_is : config.secret ≡ some secret
  pub shown : Shows cr token secret claims
  pub actor_is : actor ≡ actor_of claims

with_status-ok :
    (status : ℕ) (r : Result String Claims) {actor : ActorContext}
    → with_status status r ≡ ok actor
    → (claims : Claims) × (r ≡ ok claims) × (actor ≡ actor_of claims)
with_status-ok status (ok claims) h = (claims, refl, cc)
with_status-ok status (err e) h = cc

checked-ok :
    (cr : Crypto) (token : String) (o : Option String) {actor : ActorContext}
    → checked cr token o ≡ ok actor
    → (secret : String) × (claims : Claims) × (o ≡ some secret)
      × (decode_jwt cr token secret ≡ ok claims)
      × (actor ≡ actor_of claims)
checked-ok cr token none h = cc
checked-ok cr token (some secret) h =
    let (claims, decoded, same) = with_status-ok 401 (decode_jwt cr token secret) h in
    (secret, claims, refl, decoded, same)

authorised-ok :
    (cr : Crypto) (config : AuthConfig) (o : Option String) {actor : ActorContext}
    → authorised cr config o ≡ ok actor
    → (token : String) × (o ≡ some token) × (checked cr token config.secret ≡ ok actor)
authorised-ok cr config none h = cc
authorised-ok cr config (some token) h = (token, refl, h)

header-ok :
    (cr : Crypto) (config : AuthConfig) (header : Option String) {actor : ActorContext}
    → config.disabled ≡ false
    → extract_actor cr header config ≡ ok actor
    → (text : String) × (header ≡ some text) × (authorised cr config (bearer text) ≡ ok actor)
unfolding extract_actor
header-ok cr config none off h = ground arith
header-ok cr config (some text) off h = (text, refl, rw off at h)

-- While authentication is on, an actor is let in only as the actor of claims that a bearer token
-- with three parts has shown: their code verifies under the configured secret, the payload reads
-- as the claims, and they have not expired.
pub extract_actor-Admitted :
    (cr : Crypto) (header : Option String) (config : AuthConfig) (actor : ActorContext)
    → config.disabled ≡ false
    → extract_actor cr header config ≡ ok actor
    → Admitted cr header config actor
extract_actor-Admitted cr header config actor off h =
    let (text, header_is, let_in) = header-ok cr config header off h in
    let (token, bearer_is, passed) = authorised-ok cr config (bearer text) let_in in
    let (secret, claims, secret_is, decoded, same) = checked-ok cr token config.secret passed in
    record {
      text = text;
      token = token;
      secret = secret;
      claims = claims;
      header_is = header_is;
      bearer_is = bearer_is;
      secret_is = secret_is;
      shown = decode_jwt-Shows cr token secret claims decoded;
      actor_is = same;
    }
