-- ===== src/Schema.antt =====
-- backend/prisma/schema.prisma: the rows of the tables that the services below read and write.
-- Ids (uuids), order ids, payment keys and invite tokens are only compared, so they are numbers. A
-- time is its number of milliseconds. A float that is stored and never computed with is its bit
-- pattern. Time stamps that only reach the answer (`createdAt`) are left out where no code reads
-- them.
use ai_planner.Prelude.{ℕ, Bool, String, Option, List}
use ai_planner.Prisma.{Model}

-- `SubscriptionState` of payment.types.ts
pub data SubscriptionState : Type 0 where
  inactive active grace expired cancelled : SubscriptionState

pub data PaymentState : Type 0 where
  ready done failed canceled : PaymentState

-- `Role` of the schema
pub data UserRole : Type 0 where
  user admin : UserRole

-- `password` is the hash that bcrypt makes.
pub record User : Type 0 where
  pub id : ℕ
  pub email : Option String
  pub nickname : String
  pub password : Option String
  pub role : UserRole
  pub admin_read_only : Bool
  pub is_suspended : Bool
  pub last_login_at : Option ℕ
  pub google_id : Option ℕ
  pub kakao_id : Option ℕ
  pub naver_id : Option ℕ
  pub email_verified : Bool
  pub deleted_at : Option ℕ
  pub in_app_notifications_enabled : Bool
  pub email_notifications_enabled : Bool

-- `token` is the hash that bcrypt makes of the token.
pub record RefreshToken : Type 0 where
  pub id : ℕ
  pub token : String
  pub user_id : ℕ
  pub expires_at : ℕ

pub record PasswordResetToken : Type 0 where
  pub id : ℕ
  pub token : String
  pub user_id : ℕ
  pub expires_at : ℕ
  pub used : Bool

pub record Subscription : Type 0 where
  pub id : ℕ
  pub user_id : ℕ
  pub plan_code : String
  pub status : SubscriptionState
  pub current_period_end : Option ℕ
  pub grace_ends_at : Option ℕ
  pub cancelled_at : Option ℕ

pub record Payment : Type 0 where
  pub id : ℕ
  pub user_id : ℕ
  pub subscription_id : ℕ
  pub order_id : ℕ
  pub payment_key : Option ℕ
  pub amount : ℕ
  pub method : String
  pub status : PaymentState
  pub confirmed_at : Option ℕ
  pub fail_reason : Option String

pub record Workspace : Type 0 where
  pub id : ℕ
  pub name : String
  pub owner_id : ℕ

pub data Role : Type 0 where
  owner member : Role

pub record WorkspaceMember : Type 0 where
  pub workspace_id : ℕ
  pub user_id : ℕ
  pub role : Role

pub data InviteStatus : Type 0 where
  pending accepted : InviteStatus

pub record WorkspaceInvite : Type 0 where
  pub id : ℕ
  pub workspace_id : ℕ
  pub inviter_id : ℕ
  pub email : String
  pub token : ℕ
  pub status : InviteStatus
  pub expires_at : ℕ
  pub accepted_at : Option ℕ

pub data Mode : Type 0 where
  date trip : Mode

pub record Plan : Type 0 where
  pub id : ℕ
  pub user_id : ℕ
  pub workspace_id : Option ℕ
  pub category_id : Option ℕ
  pub raw_input : String
  pub mode : Mode
  pub summary : Option String
  pub updated_at : ℕ

pub record PlanItem : Type 0 where
  pub id : ℕ
  pub plan_id : ℕ
  pub order : ℕ
  pub name : String
  pub lat : ℕ
  pub lng : ℕ
  pub kind : String
  pub time : String
  pub address : String
  pub link : Option String
  pub source : Option String
  pub distance_from_prev : Option ℕ

pub record PlanMemo : Type 0 where
  pub id : ℕ
  pub plan_id : ℕ
  pub author_id : ℕ
  pub content : String

pub record Category : Type 0 where
  pub id : ℕ
  pub user_id : ℕ
  pub name : String
  pub color : String

-- The `type` of a notification.
pub data NotificationType : Type 0 where
  plan_created plan_edited plan_shared plan_deleted : NotificationType
  plan_item_added plan_item_updated plan_item_deleted memo_added : NotificationType
  invite_received workspace_joined workspace_dissolved : NotificationType

pub data Payload : Type 0 where
  -- planId, summary, workspaceName
  about_plan : ℕ → Option String → Option String → Payload
  -- planId, itemName, workspaceName
  about_item : ℕ → String → Option String → Payload
  -- workspaceId, workspaceName, the token in inviteUrl
  about_invite : ℕ → String → ℕ → Payload
  -- workspaceId, workspaceName, userEmail
  about_member : ℕ → String → String → Payload
  -- workspaceName
  about_workspace : String → Payload

pub record Notification : Type 0 where
  pub id : ℕ
  pub user_id : ℕ
  pub kind : NotificationType
  pub payload : Payload
  pub read : Bool

-- A message handed to EmailService.
pub data Mail : Type 0 where
  receipt : String → Payment → Option ℕ → Mail
  workspace_invite : String → String → ℕ → Mail
  password_reset : String → String → Mail
  -- the names of the providers
  oauth_account_reminder : String → List String → Mail
  verification_code : String → String → Mail

-- The database, and the messages sent so far.
pub record Store : Type 0 where
  pub users : List User
  pub refresh_tokens : List RefreshToken
  pub reset_tokens : List PasswordResetToken
  pub subscriptions : List Subscription
  pub payments : List Payment
  pub workspaces : List Workspace
  pub members : List WorkspaceMember
  pub invites : List WorkspaceInvite
  pub plans : List Plan
  pub items : List PlanItem
  pub memos : List PlanMemo
  pub categories : List Category
  pub notifications : List Notification
  pub outbox : List Mail

-- `PrismaService`: a client for each table.
pub record Prisma : Type 0 where
  pub user : Model User
  pub refresh_token : Model RefreshToken
  pub password_reset_token : Model PasswordResetToken
  pub subscription : Model Subscription
  pub payment : Model Payment
  pub workspace : Model Workspace
  pub workspace_member : Model WorkspaceMember
  pub workspace_invite : Model WorkspaceInvite
  pub plan : Model Plan
  pub plan_item : Model PlanItem
  pub plan_memo : Model PlanMemo
  pub category : Model Category
  pub notification : Model Notification

-- The HTTP exceptions that the services throw; `internal` is any other error (status 500).
pub data HttpError : Type 0 where
  bad_request unauthorized forbidden not_found conflict too_many_requests internal : HttpError
