-- ===== src/Samples.antt =====
-- A small database for the tests: two users, the first of whom has a paid subscription, a pending
-- payment, a workspace with an open invite to the second user, and plans.
use ai_planner.Prelude.{JsString, str_eq, true, false, some, none, [], ◌∷◌, ok}
use ai_planner.Prisma.{in_memory}
use ai_planner.Schema.{
  Prisma, Store, User, UserRole, RefreshToken, Subscription, active, Payment, ready, Workspace,
  WorkspaceMember, owner, WorkspaceInvite, pending, Plan, PlanItem, Mode,
}
use ai_planner.Payment.Subscriptions.{Env, ConfirmPaymentDto}

abbrev pub memory : Prisma
memory = record {
  user = in_memory;
  refresh_token = in_memory;
  password_reset_token = in_memory;
  subscription = in_memory;
  payment = in_memory;
  workspace = in_memory;
  workspace_member = in_memory;
  workspace_invite = in_memory;
  plan = in_memory;
  plan_item = in_memory;
  plan_memo = in_memory;
  category = in_memory;
  notification = in_memory;
}

-- Texts are already trimmed and in lower case, and hold no part but the whole.
abbrev pub plain : JsString
plain = record { trim = λ s. s; to_lower_case = λ s. s; includes = λ s part. str_eq s part }

-- Toss approves every payment.
abbrev pub env : Env
env = record {
  monthly_amount = 4900;
  has_toss_secret = true;
  is_production = true;
  toss_confirm =
      λ dto. ok (record { payment_key = dto.payment_key; method = none; approved_at = some 1000 });
}

abbrev pub ann : User
ann = record {
  id = 1;
  email = some "ann@example.com";
  nickname = "ann";
  password = some "secret";
  role = UserRole.user;
  admin_read_only = false;
  is_suspended = false;
  last_login_at = none;
  google_id = some 7;
  kakao_id = none;
  naver_id = none;
  email_verified = true;
  deleted_at = none;
  in_app_notifications_enabled = true;
  email_notifications_enabled = true;
}

abbrev pub bob : User
bob = record ann {
  id = 2;
  email = some "bob@example.com";
  nickname = "bob";
  password = none;
  google_id = none;
  kakao_id = some 8;
  email_notifications_enabled = false;
}

-- Paid until 2000.
abbrev pub subscription : Subscription
subscription = record {
  id = 11;
  user_id = 1;
  plan_code = "couple_monthly";
  status = active;
  current_period_end = some 2000;
  grace_ends_at = none;
  cancelled_at = none;
}

abbrev pub payment : Payment
payment = record {
  id = 21;
  user_id = 1;
  subscription_id = 11;
  order_id = 31;
  payment_key = none;
  amount = 4900;
  method = "TOSSPAY";
  status = ready;
  confirmed_at = none;
  fail_reason = none;
}

abbrev pub payment_dto : ConfirmPaymentDto
payment_dto = record { payment_key = 41; order_id = 31; amount = 4900 }

abbrev pub workspace : Workspace
workspace = record { id = 51; name = "trips"; owner_id = 1 }

abbrev pub membership : WorkspaceMember
membership = record { workspace_id = 51; user_id = 1; role = owner }

abbrev pub invite : WorkspaceInvite
invite = record {
  id = 61;
  workspace_id = 51;
  inviter_id = 1;
  email = "bob@example.com";
  token = 71;
  status = pending;
  expires_at = 5000;
  accepted_at = none;
}

abbrev pub shared_plan : Plan
shared_plan = record {
  id = 81;
  user_id = 1;
  workspace_id = some 51;
  category_id = none;
  raw_input = "Seoul";
  mode = Mode.date;
  summary = none;
  updated_at = 100;
}

abbrev pub own_plan : Plan
own_plan = record shared_plan { id = 82; workspace_id = none }

abbrev pub first_item : PlanItem
first_item = record {
  id = 91;
  plan_id = 81;
  order = 1;
  name = "museum";
  lat = 0;
  lng = 0;
  kind = "place";
  time = "10:00";
  address = "";
  link = none;
  source = none;
  distance_from_prev = none;
}

abbrev pub second_item : PlanItem
second_item = record first_item { id = 92; order = 2; name = "cafe" }

-- A session of ann's, until 9000.
abbrev pub session : RefreshToken
session = record { id = 101; token = "s1"; user_id = 1; expires_at = 9000 }

abbrev pub store : Store
store = record {
  users = ann ∷ bob ∷ [];
  refresh_tokens = session ∷ [];
  reset_tokens = [];
  subscriptions = subscription ∷ [];
  payments = payment ∷ [];
  workspaces = workspace ∷ [];
  members = membership ∷ [];
  invites = invite ∷ [];
  plans = shared_plan ∷ own_plan ∷ [];
  items = first_item ∷ second_item ∷ [];
  memos = [];
  categories = [];
  notifications = [];
  outbox = [];
}
