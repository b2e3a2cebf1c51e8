-- ===== src/Agent/Router.antt =====
-- http/router.py and auth/auth.py: routing by method and path, and the bearer token.
-- A text is walked by characters; a header that is missing is the empty text.
pub mod Guard
use Prim.Native.Char.{code}
use craftcontrol.Base.{
  ℕ, Bool, false, Option, none, some, List, [], ◌∷◌, String, ◌==◌, str_eq, if◌then◌else◌,
}
use craftcontrol.Base.Int.{ℤ}
use craftcontrol.Base.Value.{Value, text}
use craftcontrol.Agent.Handler.{
  Response, Server, refused, valid, read_json_body, handle_execute, handle_status, handle_health,
  handle_bedrock_status,
}

-- `s[len(prefix):]` if `s.startswith(prefix)`
unfoldable pub after_prefix : String → String → Option String
after_prefix String.[] s = some s
after_prefix (String.◌∷◌ p ps) String.[] = none
after_prefix (String.◌∷◌ p ps) (String.◌∷◌ c cs) =
    let rest = after_prefix ps cs in if code p == code c then rest else none

-- `verify_bearer_token`; the comparison in constant time is an equality
unfoldable pub verify_bearer_token : String → String → Bool
unfolding after_prefix
verify_bearer_token header expected = elim (after_prefix "Bearer " header) [
  | none ↦ false
  | some received ↦ str_eq received expected
]

-- `path.split("?")[0]`
unfoldable pub before_query : String → String
before_query String.[] = String.[]
before_query (String.◌∷◌ c s) =
    let rest = before_query s in if code c == 63 then String.[] else String.◌∷◌ c rest

abbrev pub unauthorized : Response
unauthorized = record {
  status = 401;
  body = ("error", text "unauthorized") ∷ ("message", text "Invalid or missing token") ∷ [];
}

abbrev pub unknown_path : Response
unknown_path = record {
  status = 404;
  body = ("error", text "not_found") ∷ ("message", text "Unknown path") ∷ [];
}

-- What a request brings: its path, its `Authorization` header, its `Content-Length` as `int` reads
-- it, and its body as `json.loads` reads so many bytes of it.
pub record Request : Type 0 where
  pub path : String
  pub authorization : String
  pub content_length : Option ℤ
  pub loads : ℤ → Option Value

-- What is outside the handlers: the token, Python's `str` and sorted texts, the clock, the success
-- of writes to SQLite, and the answer of the status checker.
pub record Context : Type 0 where
  pub token : String
  pub str : Value → String
  pub listing : List String → String
  pub now : ℕ
  pub written : String → Bool
  pub bedrock_running : Bool

-- `_require_auth`, in front of a handler
unfoldable pub require_auth :
    Context → Request → (Server → Server × Response) → Server → Server × Response
require_auth ctx req handler s =
    if verify_bearer_token req.authorization ctx.token then handler s else (s, unauthorized)

unfoldable pub do_get : Context → Request → Server → Server × Response
do_get ctx req s =
    let path = before_query req.path in
    if str_eq path "/v1/health"
    then (s, handle_health s)
    else if str_eq path "/v1/bedrock/status"
    then require_auth ctx req (λ t. (t, handle_bedrock_status ctx.bedrock_running)) s
    else (elim (after_prefix "/v1/status/" path) [
      | some oid ↦ require_auth ctx req (handle_status ctx.written ctx.now oid) s
      | none ↦ (s, unknown_path)
    ])

-- `_read_json_body` and then the endpoint
unfoldable pub execute_body : Context → Request → Server → Server × Response
execute_body ctx req s = elim (read_json_body req.content_length req.loads) [
  | refused r ↦ (s, r)
  | valid body ↦ handle_execute ctx.str ctx.listing (ctx.written "") ctx.now body s
]

unfoldable pub do_post : Context → Request → Server → Server × Response
do_post ctx req s =
    if str_eq (before_query req.path) "/v1/execute"
    then require_auth ctx req (execute_body ctx req) s
    else (s, unknown_path)
