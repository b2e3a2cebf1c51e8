-- ===== src/Agent/Router/Guard.antt =====
-- http/router.py and auth/auth.py: what a request without the token can do.
use Prim.Native.Char.{code}
use mathlib.Core.Path.{ap₂}
use text.Mathlib.TextLemmas.{nil-append, cons-append}
use text.Mathlib.TextEquality.{Char-path}
use craftcontrol.Base.{
  ◌≡◌, ◌↔◌, true, false, some, String, arith, str_eq, str_eq_refl, eq_iff, concat, Bool-cases,
  Option-cases, inl, inr, ◌⊎◌, ◌∙◌, sym, ap, if◌then◌else◌, ◌==◌,
}
use craftcontrol.Agent.Handler.{Server}
use craftcontrol.Agent.Router.{
  after_prefix, verify_bearer_token, before_query, unauthorized, unknown_path, Request, Context,
  require_auth, do_get, do_post,
}

-- Without a header that carries the token, no request changes anything: whatever its path and
-- body, a POST is answered by 401 or 404 and a GET by 401, 404 or the health report, and the
-- server stays as it was.
pub unauthorized_inert :
    (ctx : Context) (req : Request) (s : Server)
    → verify_bearer_token req.authorization ctx.token ≡ false
    → (do_post ctx req s
        ≡ (s, if str_eq (before_query req.path) "/v1/execute" then unauthorized else unknown_path))
      × ((do_get ctx req s).0 ≡ s)
      × (str_eq (before_query req.path) "/v1/health" ≡ false
          → ((do_get ctx req s).1.status ≡ 401) ⊎ ((do_get ctx req s).1.status ≡ 404))
unfolding do_post do_get require_auth
unauthorized_inert ctx req s h =
    elim (Option-cases (after_prefix "/v1/status/" (before_query req.path))) [
      | inl p ↦ ground (arith, p)
      | inr (oid, p) ↦ ground (arith, p)
    ]

after_prefix-concat : (p r : String) → after_prefix p (concat p r) ≡ some r
unfolding after_prefix
after_prefix-concat String.[] r = ap some (nil-append r)
after_prefix-concat (String.◌∷◌ c ps) r =
    rw (cons-append c ps r) (ground (arith, after_prefix-concat ps r))

after_prefix-some : (p s r : String) → after_prefix p s ≡ some r → s ≡ concat p r
unfolding after_prefix
after_prefix-some String.[] s r h = cc (nil-append r)
after_prefix-some (String.◌∷◌ c ps) String.[] r h = cc
after_prefix-some (String.◌∷◌ c ps) (String.◌∷◌ d cs) r h = elim (Bool-cases (code c == code d)) [
  | inl e ↦
      ap₂ String.◌∷◌ (Char-path d c (ground arith)) (after_prefix-some ps cs r (ground arith))
      ∙ sym (cons-append c ps r)
  | inr n ↦ absurd (ground arith)
]

-- The token is accepted exactly in the header `Bearer <token>`.
pub verify_bearer_token_iff :
    (header token : String)
    → (verify_bearer_token header token ≡ true) ↔ (header ≡ concat "Bearer " token)
unfolding verify_bearer_token
verify_bearer_token_iff header token = (
  λ h. elim (Option-cases (after_prefix "Bearer " header)) [
    | inl p ↦ absurd (ground arith)
    | inr (r, p) ↦
        after_prefix-some "Bearer " header r p
        ∙ ap (concat "Bearer ") ((eq_iff r token).0 (ground arith))
  ],
  λ e. rw e (rw (after_prefix-concat "Bearer " token, verify_bearer_token) (str_eq_refl token)),
)
