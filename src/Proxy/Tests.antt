-- ===== src/Proxy/Tests.antt =====
-- frontend/src/proxy.ts, on sample requests.
use ai_planner.Prelude.{◌≡◌, refl, false, some}
use ai_planner.Proxy.{Request, next, redirect, proxy, is_protected, is_auth_page, redirect_settles}

abbrev visitor : Request
visitor = record {
  pathname = "/plans/7";
  has_token = false;
  has_admin_token = false;
  has_admin_refresh = false;
}

sent_to_login : proxy visitor ≡ redirect "/login" (some "/plans/7")
unfolding proxy is_protected
sent_to_login = refl

join_is_open : proxy (record visitor { pathname = "/workspace/join/71" }) ≡ next
unfolding proxy is_protected is_auth_page
join_is_open = refl

redirect_settles_example : proxy (record visitor { pathname = "/login" }) ≡ next
redirect_settles_example = redirect_settles visitor "/login" (some "/plans/7") sent_to_login
