-- ===== src/Admin/Paging.antt =====
-- backend/src/modules/admin/admin.service.ts: the pages of the lists.
use mathlib.Core.List.{Permᴰ}
use mathlib.Core.Path.{ap₂, subst}
use ai_planner.Prisma.Keys.{IsUnique}
use ai_planner.Admin.Ordering.{IsNewestFirst, one_order-Perm}
use ai_planner.Pipeline.Choosing.{length-Perm}
use native.Mathlib.Nat.{lt-div-mul-add, zero-mul, suc-mul}
use ai_planner.Prelude.{
  ℕ, zero, suc, ◌+◌, ◌-◌, ◌*◌, ◌/◌, ◌≤◌, ◌<◌, List, [], ◌∷◌, ◌++◌, ◌≡◌, refl, sym, ap, ◌∙◌, arith,
  take, drop, leb, Bool-cases, inl, inr, length, length-take, some, select,
}
use ai_planner.Schema.{User, Store, Prisma}
use ai_planner.Admin.{
  UserListFilters, Queries, max, min, or_else, max_limit, default_limit, list_users, is_listed,
}

-- The number of pages is enough.
enough : (total l : ℕ) → 0 < l → total ≤ max 1 ((total + (l - 1)) / l) * l
enough total l some_rows =
    let q = (total + (l - 1)) / l in
    let covers = lt-div-mul-add {a = total + (l - 1)} {b = l} some_rows in
    let whole : total ≤ q * l = omega (arith, covers) in
    elim (Bool-cases (leb 1 q)) [
      | inl y ↦ rw y whole
      | inr n ↦
          let none : q ≡ 0 = ground arith in
          let empty : q * l ≡ 0 = ap (λ m. m * l) none ∙ zero-mul l in
          rw n (omega (arith, whole, empty))
    ]

module _ {A : Type 0} where
  -- The pages from the one after `page` on, as many as `n`, read one after the other.
  abbrev pub read_pages : (ℕ → List A) → ℕ → ℕ → List A
  read_pages items page zero = []
  read_pages items page (suc n) = items (suc page) ++ read_pages items (suc page) n

  drop-nil : (n : ℕ) → drop {A = A} n [] ≡ []
  drop-nil zero = refl
  drop-nil (suc n) = refl

  drop-drop : (a b : ℕ) (t : List A) → drop b (drop a t) ≡ drop (a + b) t
  drop-drop zero b t = ap (λ n. drop n t) (omega arith)
  drop-drop (suc a) b [] = drop-nil b ∙ sym (drop-nil (suc a + b))
  drop-drop (suc a) b (x ∷ t) =
      let shift : suc (a + b) ≡ suc a + b = omega arith in
      drop-drop a b t ∙ ap (λ n. drop n (x ∷ t)) shift

  -- A list cut into parts of `l`, put together again.
  parts_of : ℕ → ℕ → List A → List A
  parts_of l zero t = []
  parts_of l (suc n) t = take l t ++ parts_of l n (drop l t)

  take-drop : (l : ℕ) (t : List A) → take l t ++ drop l t ≡ t
  take-drop zero t = refl
  take-drop (suc l) [] = refl
  take-drop (suc l) (x ∷ t) = ap (λ u. x ∷ u) (take-drop l t)

  length-drop : (l : ℕ) (t : List A) → length (drop l t) ≡ length t - l
  length-drop zero t = omega arith
  length-drop (suc l) [] = omega arith
  length-drop (suc l) (x ∷ t) = omega (arith, length-drop l t)

  none-left : (t : List A) → length t ≤ 0 → [] ≡ t
  none-left [] h = refl
  none-left (x ∷ t) h = absurd (omega arith)

  parts_of-all : (l n : ℕ) (t : List A) → length t ≤ n * l → parts_of l n t ≡ t
  unfolding parts_of
  parts_of-all l zero t h = none-left t (omega arith)
  parts_of-all l (suc n) t h =
      let shorter : length (drop l t) ≤ n * l = omega (arith, length-drop l t, suc-mul n l) in
      ap (λ u. take l t ++ u) (parts_of-all l n (drop l t) shorter) ∙ take-drop l t

  read_pages-parts :
      (items : ℕ → List A) (l : ℕ) (rows : List A)
      → ((k : ℕ) → items (suc k) ≡ take l (drop (k * l) rows))
      → (k n : ℕ) → read_pages items k n ≡ parts_of l n (drop (k * l) rows)
  unfolding parts_of
  read_pages-parts items l rows each k zero = refl
  read_pages-parts items l rows each k (suc n) =
      let next : k * l + l ≡ suc k * l = sym (suc-mul k l) in
      ap₂ ◌++◌ (each k) (
        read_pages-parts items l rows each (suc k) n
        ∙ ap (parts_of l n) (sym (drop-drop (k * l) l rows ∙ ap (λ m. drop m rows) next)))

  pages_cover :
      (items : ℕ → List A) (l : ℕ) (rows : List A)
      → 0 < l
      → ((k : ℕ) → items (suc k) ≡ take l (drop (k * l) rows))
      → read_pages items 0 (max 1 ((length rows + (l - 1)) / l)) ≡ rows
  pages_cover items l rows some_rows each =
      let n = max 1 ((length rows + (l - 1)) / l) in
      let start : drop (0 * l) rows ≡ rows = ap (λ m. drop m rows) (zero-mul l) in
      read_pages-parts items l rows each 0 n
      ∙ ap (parts_of l n) start
      ∙ parts_of-all l n rows (enough (length rows) l some_rows)

clamp-pos : (n : ℕ) → 0 < min 100 (max 1 n)
clamp-pos n = ground arith

clamp-le : (n : ℕ) → min 100 (max 1 n) ≤ 100
clamp-le n = ground arith

max-suc : (k : ℕ) → max 1 (suc k) - 1 ≡ k
max-suc k = ground arith

-- Whatever is asked for, with any limit or none: the pages of the list of users, from the first to the
-- last of those that it counts, have each user that is listed once, the newest first, and none has
-- more than 100 users. This is so if no two of the users were made at the same time, and `orderBy`, at
-- the query of each page, orders the rows by that time and neither adds nor drops any; nothing else
-- is asked of the order.
pub list_users-pages :
    (db : Prisma) (q : Queries) (f : UserListFilters) (st : Store) (created_at : User → ℕ)
    → ((k : ℕ) (t : List User) → Permᴰ (q.newest_users k t) t)
    → ((k : ℕ) (t : List User) → IsNewestFirst created_at (q.newest_users k t))
    → IsUnique created_at (select (is_listed db q f st) st.users)
    → let page = λ (k : ℕ). (list_users db q (record f { page = some k }) st).items in
      let all = read_pages page 0 (list_users db q f st).total_pages in
      Permᴰ all (select (is_listed db q f st) st.users)
      × IsNewestFirst created_at all
      × ((k : ℕ) → length (page k) ≤ 100)
unfolding list_users
list_users-pages db q f st created_at perm newest apart =
    let listed = select (is_listed db q f st) st.users in
    let found = db.user.find_many (is_listed db q f st) st.users in
    let law : found ≡ listed = db.user.find_many-eq (is_listed db q f st) st.users in
    let rows = q.newest_users 1 found in
    let same : (k : ℕ) → q.newest_users k found ≡ rows = λ k.
      one_order-Perm created_at (subst (IsUnique created_at) (sym law) apart) (perm k found)
        (perm 1 found) (newest k found) (newest 1 found) in
    let l = min max_limit (max 1 (or_else f.limit default_limit)) in
    let total : length found ≡ length rows = sym (length-Perm (perm 1 found)) in
    let page = λ (k : ℕ). (list_users db q (record f { page = some k }) st).items in
    let each : (k : ℕ) → page (suc k) ≡ take l (drop (k * l) rows) = λ k.
      ap (λ m. take l (drop (m * l) (q.newest_users (max 1 (suc k)) found))) (max-suc k)
      ∙ ap (λ t. take l (drop (k * l) t)) (same (max 1 (suc k))) in
    let all : read_pages page 0 (list_users db q f st).total_pages ≡ rows =
      ap (λ n. read_pages page 0 (max 1 ((n + (l - 1)) / l))) total
      ∙ pages_cover page l rows (clamp-pos (or_else f.limit default_limit)) each in
    (
      subst (λ t. Permᴰ t listed) (sym all) (subst (Permᴰ rows) law (perm 1 found)),
      subst (IsNewestFirst created_at) (sym all) (newest 1 found),
      λ k. omega (
        arith,
        length-take l (drop ((max 1 k - 1) * l) (q.newest_users (max 1 k) found)),
        clamp-le (or_else f.limit default_limit),
      ),
    )
