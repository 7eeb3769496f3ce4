-- ===== src/Lib.antt =====
-- The server of AI Planner: a NestJS backend that sells a subscription, plans days out with an AI
-- pipeline, and shares the plans in workspaces of two users. This library models the services that
-- hold its rules, and proves what they promise.
--
-- The parts, and how they meet. Each request calls a method of a service; the services share the
-- database, through Prisma. PaymentService keeps subscriptions and payments. WorkspaceService asks it
-- whether the owner of a workspace has access, and makes members of invited users. PlanService reads
-- the table of members, asks PaymentService as well before a shared plan is written, and tells the
-- other members through NotificationService.
-- ApiBudgetMiddleware stands before the routes of the AI pipeline and asks ApiBudgetService.
-- EmailVerificationService proves an e-mail address before AuthService makes an account of it;
-- AuthService keeps sessions, locks addresses through RedisService, and cancels the subscription of a
-- user who leaves. AdminService changes the roles of users and suspends them. AiService runs the steps
-- of the pipeline: they search places for each slot of a day, choose among them, order them and give
-- them times. RegionService reads the region out of a text, and AliasLearningService teaches it new
-- names.
--
-- Which file models what. The paths are from the root of the repository, below
-- backend/src/modules/ where nothing else is said.
--   Prelude            texts, lists, and the calls of a service: a call takes the state, and gives the
--                      answer or the exception together with the state, since what was written before
--                      a throw stays written
--   Prisma             the client of one table, an interface with the meaning of its queries, which a
--                      list of rows satisfies; unique keys
--   Schema             backend/prisma/schema.prisma: the rows, the database `Store`, and the exceptions
--   Payment            payment/payment.service.ts. Subscriptions: syncLifecycle (`lifecycle` on the row,
--                      `sync_lifecycle` with its write), getStatus, cancelByUser, resubscribeByUser.
--                      Orders: prepare, confirm (`load_payment`, then `replay` or `charge`, whose
--                      transaction is `settle`), handleWebhook
--   EmailVerification  auth/email-verification.service.ts: requestCode, verifyCode, assertVerified on
--                      the `fallbackStore`, and in OnRedis where Redis is there. Calls has sequences
--                      of calls, Guesses counts comparisons, Equivalence compares the two stores
--   Notification       notification/notification.service.ts
--   Workspace          workspace/workspace.service.ts: create, invite, join (`check_invite`, then
--                      `join_as` with the transaction `admit`); Dissolving: dissolve (transaction
--                      `dissolve_all`), and Parting about what the members keep. Runs has
--                      sequences of calls
--   Plan               plan/plan.service.ts. Access: get, update, share, delete, touchPlan and the
--                      tests of the right to write. Items: items and memos. Drafts: preview, saveDraft,
--                      generate. Diversity: buildDiversityHistory
--   Category           category/category.service.ts, with Ownership about whose rows a call changes
--   ApiBudget          backend/src/services/api-budget.service.ts and
--                      backend/src/middleware/api-budget.middleware.ts
--   Redis              backend/src/shared/redis/redis.service.ts, over a client that is an interface;
--                      Redis.Memory meets it
--   Region             backend/src/shared/region/region.service.ts: the two maps, and in Chunks and Scan
--                      stripParticles, scanAll and resolveBest. Learning: alias-learning.service.ts of
--                      the same folder. Stripping is about the loop of stripParticles, Specific about
--                      resolveBest, Loading, Reading and Restart about the aliases that Redis keeps, and
--                      Promotion about a name that is reported again
--   Captcha            backend/src/shared/captcha/turnstile.service.ts
--   Admin              admin/admin.service.ts: updateUserRole, suspendUser (Keeping), and the lists with
--                      their pages (Paging, over the orders of Ordering; Sorting is one)
--   Account            auth/auth.service.ts and auth/oauth-account.service.ts. Tokens: the pair of a
--                      session, refreshTokens, logout, logoutAll, oauthLogin. Login: loginInternal
--                      (`enter` after the right password, `refuse` after a wrong one). Password:
--                      forgotPassword, resetPassword, changePassword, the set-up of a first password.
--                      Oauth: OAuthAccountService, completeOAuthSignup, unlinkOAuth, the tokens for
--                      linking and signing up. Profile: register, getMe, updateSettings,
--                      updateNickname, updateEmail, deleteMe. Nickname: assertNickname
--   Pipeline           ai. Places: the interfaces. Definitions, Registry and Diversity:
--                      utils/activity-registry.ts and utils/place-diversity.util.ts. Search:
--                      steps/search-places.step.ts, with Merging about mergeSources. Scoring and
--                      Select: steps/select-candidates.step.ts, with Picking, Pool, Filling and
--                      Candidates about what it picks. Route, Beam and Ranking:
--                      steps/optimize-route.step.ts, that is nearestNeighbor, makeOrdered,
--                      totalDistance and twoOpt (`improve` is its loop), then
--                      buildCandidateCombinations, then the ranking and the draw of a route;
--                      Visiting, Improving, Choosing and Winning are about these. Clock and Schedule:
--                      steps/generate-schedule.step.ts (`execute`, with `build_schedule` and the loop
--                      `fit`), with Spacing and Fitting about them. Run: runPipeline of
--                      ai.service.ts, with Outcome about its answers and failures
--   Cleanup            user/user-cleanup.service.ts, with `onDelete` of backend/prisma/schema.prisma
--   Proxy              frontend/src/proxy.ts
-- The files below these hold the lemmas and theorems, and a Tests file for each part runs them on the
-- small database of Samples.
--
-- What enters from outside. A call reads the clock once, as `now`, in milliseconds. Ids, order ids,
-- payment keys, ids of providers and tokens of invites are numbers, since they are only compared; ids
-- of new rows, and tokens and salts that are drawn, are arguments. bcrypt and the client of Redis are
-- interfaces; a signed token is its payload, and whether a signature holds is an argument.
-- So are the answer of Toss Payments, the verdicts of the captcha and of the mail service, the file of
-- regions, and what a plan takes from the AI pipeline; in the pipeline itself, the intent that the
-- language models give, the searches for places, the floats with their operations, and what is drawn
-- at random. String methods of JavaScript, the costs (floats) and the order in which
-- the database returns equal rows are parameters of any kind, with laws only where a theorem names
-- them. A transaction is one change of the state. Two requests do not interleave within a call; the
-- theorems on versions, invites and repeated calls are about calls that follow each other.
--
-- Most loops of the code are maps and filters over rows, and need no fuel. Some have fuel: the loop
-- that drops places gets one unit for each place, since it drops one each time; nearestNeighbor the
-- same, since it visits one each time; twoOpt one more than the distance at the start, as a bit
-- pattern, since each pass that goes on makes it less. stripParticles gets two more than the length
-- of the text, since each round that goes on makes it shorter. That this is enough is proved. The
-- particles of Chunks take a character each, so that the length of the text is enough. Every
-- function is total. The numbers are unbounded, as dates and counters of the code stay far below
-- 2^53; floats of the route are bit patterns, and what is computed of them is a parameter.
--
-- Not modelled: the reading of inputs and intents, which calls language models, and the calls of the
-- services that search places; the overviews, costs and logs of administration, which are reports;
-- controllers, and the pages of the frontend. Texts of messages and log lines are left out, as are
-- columns that no code below reads.
pub mod Prelude
pub mod Prisma
pub mod Schema
pub mod Samples
pub mod Redis
pub mod Region
pub mod Admin
pub mod Captcha
pub mod Payment
pub mod Notification
pub mod Workspace
pub mod Plan
pub mod Category
pub mod ApiBudget
pub mod EmailVerification
pub mod Account
pub mod Pipeline
pub mod Cleanup
pub mod Proxy
