-- ===== src/Notification/Laws.antt =====
-- backend/src/modules/notification/notification.service.ts: marking notifications as read.
use ai_planner.Prelude.{
  ℕ, Bool, true, false, List, [], ◌∷◌, map, ◌≡◌, refl, arith, ok, err, ◌==◌, ◌&&◌, not, select,
  change, length, Bool-cases, inl, inr, if◌then◌else◌,
}
use ai_planner.Schema.{Store, Prisma, Notification, not_found}
use ai_planner.Notification.{mark_read, mark_all_read}

select-change :
    {A : Type 0} (p q : A → Bool) (g : A → A) (t : List A)
    → ((x : A) → p x ≡ true → (q x ≡ false) × (q (g x) ≡ false))
    → select q (map (change p g) t) ≡ select q t
select-change p q g [] h = refl
select-change p q g (x ∷ t) h = elim (Bool-cases (p x)) [
  | inl y ↦ ground (arith, h x y, select-change p q g t h)
  | inr n ↦ ground (arith, select-change p q g t h)
]

abbrev of_others : ℕ → Notification → Bool
of_others user_id n = not (n.user_id == user_id)

-- The notifications of a user that are not read.
abbrev pub unread : ℕ → List Notification → List Notification
unread user_id t = select (λ n. n.user_id == user_id && not n.read) t

none_unread :
    (user_id : ℕ) (t : List Notification)
    → unread user_id
        (map (change (λ n. n.user_id == user_id && not n.read) (λ n. record n { read = true })) t)
      ≡ []
none_unread user_id [] = refl
none_unread user_id (n ∷ t) = ground (arith, none_unread user_id t)

module _ (db : Prisma) where
  -- Users mark their own notifications only: neither call changes another's, one that marks a
  -- notification answers 404 exactly if the user does not have it, and marking all leaves none unread.
  pub mark_read_own :
      (user_id id : ℕ) (st : Store)
      → let (r, st') = mark_read db user_id id st in
        let (all, st'') = mark_all_read db user_id st in
        (select (λ n. not (n.user_id == user_id)) st'.notifications
          ≡ select (λ n. not (n.user_id == user_id)) st.notifications)
        × (select (λ n. not (n.user_id == user_id)) st''.notifications
            ≡ select (λ n. not (n.user_id == user_id)) st.notifications)
        × (r ≡ (
            if length (select (λ n. n.id == id && n.user_id == user_id) st.notifications) == 0
            then err not_found
            else ok tt))
        × (unread user_id st''.notifications ≡ [])
  unfolding mark_read mark_all_read
  mark_read_own user_id id st =
      let t = st.notifications in
      let p = λ (n : Notification). n.id == id && n.user_id == user_id in
      let q = λ (n : Notification). n.user_id == user_id && not n.read in
      let f = λ (n : Notification). record n { read = true } in
      (
        rw (db.notification.update_many-eq p f t)
            (select-change p (of_others user_id) f t (λ n h. ground arith)),
        rw (db.notification.update_many-eq q f t)
            (select-change q (of_others user_id) f t (λ n h. ground arith)),
        ground (arith, db.notification.find_many-eq p t),
        rw (db.notification.update_many-eq q f t) (none_unread user_id t),
      )
