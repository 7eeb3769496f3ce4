-- ===== src/Account/Linking.antt =====
-- backend/src/modules/auth/oauth-account.service.ts and auth.service.ts: what the calls that link and
-- unlink providers, and set passwords, keep of all accounts.
use mathlib.Core.Path.{subst}
use ai_planner.Prelude.{
  JsString, ℕ, ◌≡◌, ◌≢◌, refl, ap, sym, ◌∙◌, arith, Bool, true, false, String, Option, none, some,
  List, [], ◌∷◌, ok, ◌==◌, is_some, ◌&&◌, ◌||◌, find?, select, map, change, All, Bool-cases,
  Option-cases, inl, inr, some_is, >>=-post, ◌>>=◌,
}
use ai_planner.Prisma.Keys.{IsUnique}
use ai_planner.Prisma.Reads.{All-find?}
use ai_planner.Schema.{User, Store, Prisma}
use ai_planner.Workspace.{email_matches}
use ai_planner.Payment.Subscriptions.{Call}
use ai_planner.Account.Login.{hash_of}
use ai_planner.Account.Password.{given}
use ai_planner.Account.Oauth.{
  OauthProvider, provider_id, set_provider, signed_in, new_user, find_by_provider_id, link_by_email,
  create_user, by_address, normalized, sign_up, link_or_ask, complete_signup,
  find_or_link_or_create,
}

abbrev pub has_password : User → Bool
has_password u = is_some (hash_of (some u))

-- The providers of the accounts that have a password.
abbrev pub ids_of : User → Option ℕ × Option ℕ × Option ℕ
ids_of u = (u.google_id, u.kakao_id, u.naver_id)

abbrev pub guarded : Store → List (Option ℕ × Option ℕ × Option ℕ)
guarded st = map ids_of (select has_password st.users)

-- A user can sign in by a password or by a provider.
abbrev pub HasLogin : User → Type 0
HasLogin u =
    (has_password u || (is_some u.google_id || (is_some u.kakao_id || is_some u.naver_id))) ≡ true

abbrev pub AllHaveLogin : Store → Type 0
AllHaveLogin st = All HasLogin st.users

pub All-not :
    (k : User → ℕ) (a : ℕ) (q : User → Bool) (t : List User)
    → All (λ x. k x ≢ a) t
    → All (λ x. (k x == a && q x) ≡ false) t
All-not k a q [] h = tt
All-not k a q (x ∷ t) h = (ground (arith, h.0), All-not k a q t h.1)

-- The row that is found, and no other, has its id.
pub found-lone :
    (p q : User → Bool) (t : List User) {u : User}
    → IsUnique (λ x. x.id) t
    → find? p t ≡ some u
    → q u ≡ false
    → All (λ x. (x.id == u.id && q x) ≡ false) t
found-lone p q [] uniq found free = tt
found-lone p q (x ∷ t) {u} uniq found free = elim (Bool-cases (p x)) [
  | inl here ↦
      let same : x ≡ u = ground arith in
      (
        rw same (ground (arith, free)),
        subst (λ i. All (λ y. (y.id == i && q y) ≡ false) t) (ap (λ z. z.id) same)
            (All-not (λ y. y.id) x.id q t uniq.0),
      )
  | inr later ↦
      let there : find? p t ≡ some u = ground arith in
      let other : u.id ≢ x.id = All-find? (λ y. y.id ≢ x.id) p t uniq.0 there in
      (ground (arith, other), found-lone p q t uniq.1 there free)
]

-- An update that does not meet a guarded row, or keeps what is guarded, keeps them all.
guarded-change :
    (p : User → Bool) (f : User → User) (t : List User)
    → ((x : User) → has_password (f x) ≡ has_password x)
    → All (λ x. (p x && has_password x) ≡ false) t
    → map ids_of (select has_password (map (change p f) t)) ≡ map ids_of (select has_password t)
guarded-change p f [] keep h = refl
guarded-change p f (x ∷ t) keep h = ground (arith, keep x, guarded-change p f t keep h.1)

guarded-keep :
    (p : User → Bool) (f : User → User) (t : List User)
    → ((x : User) → has_password (f x) ≡ has_password x)
    → ((x : User) → ids_of (f x) ≡ ids_of x)
    → map ids_of (select has_password (map (change p f) t)) ≡ map ids_of (select has_password t)
guarded-keep p f [] keep ids = refl
guarded-keep p f (x ∷ t) keep ids = ground (arith, keep x, ids x, guarded-keep p f t keep ids)

set_provider-password :
    (provider : OauthProvider) (id : Option ℕ) (u : User)
    → has_password (set_provider provider id u) ≡ has_password u
set_provider-password OauthProvider.google id u = refl
set_provider-password OauthProvider.kakao id u = refl
set_provider-password OauthProvider.naver id u = refl

module _ (db : Prisma) where
  link_by_email-guarded :
      (now : ℕ) (provider : OauthProvider) (id : ℕ) (p : User → Bool) (st : Store) {u : User}
      → IsUnique (λ x. x.id) st.users
      → find? p st.users ≡ some u
      → guarded (link_by_email db now provider id u st).1 ≡ guarded st
  unfolding link_by_email
  link_by_email-guarded now provider id p st {u} uniq found = elim (Bool-cases (has_password u)) [
    | inl has ↦ ground arith
    | inr free ↦
        let f : User → User = λ x. signed_in now (set_provider provider (some id) x) in
        ground (
          arith,
          guarded-change (λ x. x.id == u.id) f st.users (set_provider-password provider (some id))
              (found-lone p has_password st.users uniq found free),
          db.user.update_many-eq (λ x. x.id == u.id) f st.users,
        )
  ]

  find_by-guarded :
      (now : ℕ) (provider : OauthProvider) (id : ℕ) (st : Store)
      → guarded (find_by_provider_id db now provider id st).1 ≡ guarded st
  unfolding find_by_provider_id
  find_by-guarded now provider id st =
      elim (Option-cases (db.user.find_first (λ u. some_is (provider_id provider u) id) st.users)) [
        | inl missing ↦ ground arith
        | inr (u, found) ↦ ground (
          arith,
          guarded-keep (λ x. x.id == u.id) (signed_in now) st.users (λ x. refl) (λ x. refl),
          db.user.update_many-eq (λ x. x.id == u.id) (signed_in now) st.users,
        )
      ]

  pub find_by-missing :
      (now : ℕ) (provider : OauthProvider) (id : ℕ) (st : Store)
      → (find_by_provider_id db now provider id st).0 ≡ ok none
      → (find_by_provider_id db now provider id st).1 ≡ st
  unfolding find_by_provider_id
  find_by-missing now provider id st h =
      elim (Option-cases (db.user.find_first (λ u. some_is (provider_id provider u) id) st.users)) [
        | inl missing ↦ ground arith
        | inr (u, found) ↦ ground arith
      ]

  by_address-found :
      (email : Option String) (st : Store) {u : User}
      → by_address db email st ≡ some u
      → (p : User → Bool) × (find? p st.users ≡ some u)
  by_address-found none st h = absurd (ground arith)
  by_address-found (some e) st h =
      (λ u. email_matches u e, sym (db.user.find_first-eq (λ u. email_matches u e) st.users) ∙ h)

  link_or_ask-guarded :
      (now : ℕ) (provider : OauthProvider) (id : ℕ) (email : Option String) (st : Store)
      → IsUnique (λ x. x.id) st.users
      → guarded (link_or_ask db now provider id email none st).1 ≡ guarded st
  unfolding link_or_ask
  link_or_ask-guarded now provider id email st uniq =
      elim (Option-cases (by_address db (given email) st)) [
        | inl missing ↦ ground arith
        | inr (u, found) ↦
            let there = by_address-found (given email) st found in
            ground (arith, link_by_email-guarded now provider id there.0 st uniq there.1)
      ]

  sign_up-guarded :
      (js : JsString) (new_id now : ℕ) (provider : OauthProvider) (id : ℕ) (email : Option String)
      (nickname : String) (st : Store)
      → IsUnique (λ x. x.id) st.users
      → guarded (sign_up db js new_id now provider id email nickname none st).1 ≡ guarded st
  unfolding sign_up create_user
  sign_up-guarded js new_id now provider id email nickname st uniq =
      elim (Option-cases (by_address db (normalized js email) st)) [
        | inl missing ↦
            let u : User = new_user new_id now (normalized js email) nickname in
            ground (
              arith,
              db.user.create-eq (set_provider provider (some id) u) st.users,
              set_provider-password provider (some id) u,
            )
        | inr (u, found) ↦
            let there = by_address-found (normalized js email) st found in
            ground (arith, link_by_email-guarded now provider id there.0 st uniq there.1)
      ]

  -- What follows the search by the id of the provider keeps what is guarded, if it does where nobody
  -- is found, and writes nothing where somebody is.
  lookup-guarded :
      {B : Type 0} (k : Option User → Call B) (now : ℕ) (provider : OauthProvider) (id : ℕ)
      (st : Store)
      → ((u : User) (s : Store) → (k (some u) s).1 ≡ s)
      → guarded (k none st).1 ≡ guarded st
      → guarded ((find_by_provider_id db now provider id >>= k) st).1 ≡ guarded st
  lookup-guarded k now provider id st quiet asked =
      >>=-post (λ s. guarded s ≡ guarded st) (find_by_provider_id db now provider id) k st
        (λ e thrown. find_by-guarded now provider id st) go
    where
      go :
          (o : Option User)
          → (find_by_provider_id db now provider id st).0 ≡ ok o
          → guarded (k o (find_by_provider_id db now provider id st).1).1 ≡ guarded st
      go (some u) answered =
          ap guarded (quiet u (find_by_provider_id db now provider id st).1)
          ∙ find_by-guarded now provider id st
      go none answered =
          ap (λ s. guarded (k none s).1) (find_by-missing now provider id st answered) ∙ asked

  -- Signing in by a provider never links it to an account that has a password, where ids are unique:
  -- the providers of all accounts with a password stay as they are.
  pub find_or_link-guarded :
      (now : ℕ) (provider : OauthProvider) (id : ℕ) (email : Option String) (st : Store)
      → IsUnique (λ x. x.id) st.users
      → guarded (find_or_link_or_create db now provider id email st).1 ≡ guarded st
  unfolding find_or_link_or_create link_or_ask
  find_or_link-guarded now provider id email st uniq =
      lookup-guarded (link_or_ask db now provider id email) now provider id st (λ u s. refl)
        (link_or_ask-guarded now provider id email st uniq)

  -- Signing up by a provider never links it to an account that has a password, where ids are unique:
  -- the providers of all accounts with a password stay as they are.
  complete_signup-guarded :
      (js : JsString) (new_id now : ℕ) (provider : OauthProvider) (id : ℕ) (email : Option String)
      (nickname : String) (st : Store)
      → IsUnique (λ x. x.id) st.users
      → guarded (complete_signup db js new_id now provider id email nickname st).1 ≡ guarded st
  unfolding complete_signup sign_up
  complete_signup-guarded js new_id now provider id email nickname st uniq =
      lookup-guarded (sign_up db js new_id now provider id email nickname) now provider id st
        (λ u s. refl) (sign_up-guarded js new_id now provider id email nickname st uniq)
