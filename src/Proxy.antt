-- ===== src/Proxy.antt =====
-- frontend/src/proxy.ts: which pages a visitor gets, and where a visitor without the cookie for a page
-- is sent. The headers that are passed on are left out.
mod Tests
use text.Mathlib.Text.{starts_with}
use mathlib.Core.Path.{subst}
use ai_planner.Prelude.{
  ◌≡◌, refl, arith, Bool, true, false, String, Option, none, some, List, [], ◌∷◌, any,
  if◌then◌else◌, not, ◌&&◌, ◌||◌, str_eq, Bool-cases, inl, inr,
}

abbrev pub protected_paths : List String
protected_paths =
    "/dashboard" ∷ "/plan" ∷ "/library" ∷ "/workspace" ∷ "/plans" ∷ "/admin" ∷ "/mypage"
    ∷ "/settings" ∷ []

abbrev pub auth_paths : List String
auth_paths = "/login" ∷ "/register" ∷ []

-- The path, and which of the cookies are there (and not empty).
pub record Request : Type 0 where
  pub pathname : String
  pub has_token : Bool
  pub has_admin_token : Bool
  pub has_admin_refresh : Bool

pub data Response : Type 0 where
  next : Response
  -- where to, and the query `redirect`
  redirect : String → Option String → Response

unfoldable pub is_protected : String → Bool
is_protected path =
    not (starts_with path "/workspace/join/") && any (λ p. starts_with path p) protected_paths

unfoldable pub is_auth_page : String → Bool
is_auth_page path = any (λ p. starts_with path p) auth_paths

-- A page of the administration.
unfoldable pub admin_page : Request → Response
admin_page r =
    if starts_with r.pathname "/admin/login"
    then next
    else if not (r.has_admin_token || r.has_admin_refresh)
    then redirect "/admin/login" (
        some (
          if str_eq r.pathname "/admin" || str_eq r.pathname "/admin/"
          then "/admin/board"
          else r.pathname))
    else next

unfoldable pub proxy : Request → Response
proxy r =
    if starts_with r.pathname "/admin"
    then admin_page r
    else if is_protected r.pathname && not r.has_token
    then redirect "/login" (some r.pathname)
    else if is_auth_page r.pathname && r.has_token
    then redirect "/plan" none
    else next

at_admin_login : (r : Request) → proxy (record r { pathname = "/admin/login" }) ≡ next
unfolding proxy admin_page
at_admin_login r = refl

at_login : (r : Request) → r.has_token ≡ false → proxy (record r { pathname = "/login" }) ≡ next
unfolding proxy is_protected is_auth_page
at_login r h = rw h refl

at_plan : (r : Request) → r.has_token ≡ true → proxy (record r { pathname = "/plan" }) ≡ next
unfolding proxy is_protected is_auth_page
at_plan r h = rw h refl

-- Where a redirect leads, and why.
data Sent (r : Request) : String → Type 0 where
  to_admin_login : Sent r "/admin/login"
  to_login : r.has_token ≡ false → Sent r "/login"
  to_plan : r.has_token ≡ true → Sent r "/plan"

proxy-Sent :
    (r : Request) (target : String) (query : Option String)
    → proxy r ≡ redirect target query
    → Sent r target
unfolding proxy admin_page
proxy-Sent r target query h = elim (Bool-cases (starts_with r.pathname "/admin")) [
  | inl below ↦ elim (Bool-cases (starts_with r.pathname "/admin/login")) [
    | inl login ↦ absurd (ground arith)
    | inr other ↦ elim (Bool-cases (r.has_admin_token || r.has_admin_refresh)) [
      | inl cookie ↦ absurd (ground arith)
      | inr bare ↦
          let same : "/admin/login" ≡ target = ground arith in
          subst (λ t. Sent r t) same to_admin_login
    ]
  ]
  | inr beside ↦ elim (Bool-cases (is_protected r.pathname && not r.has_token)) [
    | inl bare ↦
        let same : "/login" ≡ target = ground arith in
        subst (λ t. Sent r t) same (to_login (ground arith))
    | inr fine ↦ elim (Bool-cases (is_auth_page r.pathname && r.has_token)) [
      | inl back ↦
          let same : "/plan" ≡ target = ground arith in
          subst (λ t. Sent r t) same (to_plan (ground arith))
      | inr served ↦ absurd (ground arith)
    ]
  ]
]

settled :
    (r : Request) (target : String) → Sent r target → proxy (record r { pathname = target }) ≡ next
settled r _ to_admin_login = at_admin_login r
settled r _ (to_login h) = at_login r h
settled r _ (to_plan h) = at_plan r h

-- A visitor who is sent elsewhere, and has the same cookies there, is not sent on: no redirect goes in
-- circles.
pub redirect_settles :
    (r : Request) (target : String) (query : Option String)
    → proxy r ≡ redirect target query
    → proxy (record r { pathname = target }) ≡ next
redirect_settles r target query h = settled r target (proxy-Sent r target query h)

-- A page that is served needs no cookie that the visitor does not have: below /admin one of an
-- administrator, but for the page to log in, and on any other protected page a user's.
pub served-IsAllowed :
    (r : Request)
    → proxy r ≡ next
    → (if starts_with r.pathname "/admin"
        then starts_with r.pathname "/admin/login" || (r.has_admin_token || r.has_admin_refresh)
        else not (is_protected r.pathname) || r.has_token)
      ≡ true
unfolding proxy admin_page
served-IsAllowed r h = ground arith
