-- ===== src/NgcImage/Registry/Token.antt =====
-- Requests to a registry, and the bearer token that it wants. A `RegistryError`, or another exception
-- that the caller catches with it, is `none`.
use cylon_local_infra.Prelude.{
  ℕ, String, ◌<>◌, Bool, true, false, Option, none, some, [], ◌∷◌, if◌then◌else◌, ◌==◌, string_eq,
  eqb,
}
use cylon_local_infra.Prelude.Dict.{Dict, lookup, insert}
use cylon_local_infra.Prelude.Json.{Json, object, Fields, get_default, null, truth, str}
use cylon_local_infra.Prelude.State.{State, pure, ◌>>=◌}
use cylon_local_infra.NgcImage.Registry.Challenge.{parse_www_auth}

-- What `urlopen` comes to; an `HTTPError` has a code, headers and a body too.
pub data Reply : Type 0 where
  answered http_error : (status : ℕ) → (headers : Dict String String) → (body : String) → Reply
  url_error : Reply

pub record Response : Type 0 where
  pub status : ℕ
  pub headers : Dict String String
  pub body : String

-- The network, and what the code calls of the standard library: `str.lower`, `urlencode`, `urljoin`,
-- `json.loads`, where `none` is text that is not JSON, and `str` of an array or an object.
pub record Http : Type 1 where
  pub World : Type 0
  pub urlopen : World → (url : String) → (headers : Dict String String) → Reply × World
  pub lower : String → String
  pub urlencode : Dict String String → String
  pub urljoin : (base url : String) → String
  pub loads : String → Option Json
  pub repr : Json → String

-- `d.get(key, default)`
abbrev pub or_text : String → Option String → String
or_text default none = default
or_text default (some s) = s

module _ (N : Http) where
  abbrev lowered : Dict String String → Dict String String
  lowered [] = []
  lowered ((k, v) ∷ headers) = (N.lower k, v) ∷ lowered headers

  -- A repeated header keeps the last value.
  abbrev last_wins : Dict String String → Dict String String → Dict String String
  last_wins d [] = d
  last_wins d ((k, v) ∷ rest) = last_wins (insert k v d) rest

  abbrev response : ℕ → Dict String String → String → Option Response
  response status headers body =
      some (record { status = status; headers = last_wins [] (lowered headers); body = body })

  unfoldable pub response_of : (allow_401 : Bool) → Reply → Option Response
  response_of allow_401 (answered status headers body) = response status headers body
  response_of false (http_error status headers body) = none
  response_of true (http_error status headers body) =
      if eqb status 401 then response status headers body else none
  response_of allow_401 url_error = none

  unfoldable pub http_get :
      (url : String) (headers : Dict String String) (allow_401 : Bool)
      → State N.World (Option Response)
  http_get url headers allow_401 w =
      let (reply, w') = N.urlopen w url headers in (response_of allow_401 reply, w')

  abbrev fields_of_json : Option Json → Option Fields
  fields_of_json (some (object fs)) = some fs
  fields_of_json _ = none

  -- `json.loads(body)` of a response with status 200, which has to be a dict.
  unfoldable pub ok_body : Option Response → Option Fields
  ok_body none = none
  ok_body (some r) = if eqb r.status 200 then fields_of_json (N.loads r.body) else none

  -- `data.get("token") or data.get("access_token")`
  abbrev token_in : Option Fields → Option String
  token_in none = none
  token_in (some fs) =
      let first = get_default "token" null fs in
      let second = get_default "access_token" null fs in
      if truth first
      then some (str N.repr first)
      else if truth second
      then some (str N.repr second)
      else none

  abbrev token_url : (realm : String) → (service scope : String) → String
  token_url realm service scope =
      realm <> "?" <> N.urlencode (("service", service) ∷ ("scope", scope) ∷ [])

  -- The challenge names the realm that gives out tokens.
  unfoldable pub answer_challenge :
      (registry_name scope challenge : String) → State N.World (Option String)
  answer_challenge registry_name scope challenge =
      let params = parse_www_auth challenge in
      let realm = or_text "" (lookup "realm" params) in
      let service = or_text registry_name (lookup "service" params) in
      if realm == ""
      then pure none
      else do r ← http_get (token_url realm service scope) [] false; pure (token_in (ok_body r))

  -- No token is needed, a challenge is to be answered, or the probe failed.
  unfoldable pub after_probe :
      (registry_name scope : String) → Option Response → State N.World (Option String)
  after_probe registry_name scope none = pure none
  after_probe registry_name scope (some r) =
      if eqb r.status 200
      then pure (some "")
      else if eqb r.status 401
      then answer_challenge registry_name scope (or_text "" (lookup "www-authenticate" r.headers))
      else pure none

  unfoldable pub get_bearer_token : (registry_name scope : String) → State N.World (Option String)
  get_bearer_token registry_name scope = do
    r ← http_get ("https://" <> registry_name <> "/v2/") [] true
    after_probe registry_name scope r
