-- ===== src/Cleanup/Tests.antt =====
-- backend/src/modules/user/user-cleanup.service.ts, on the small database of Samples.
use ai_planner.Prelude.{ℕ, ◌≡◌, refl, arith, Bool, true, false, some, [], ◌∷◌, select, not}
use ai_planner.Prisma.Keys.{IsUnique}
use ai_planner.Schema.{User, Store}
use ai_planner.Samples.{memory, store, ann, bob}
use ai_planner.Cleanup.{is_expired, hard_delete, hard_delete_each, hard_delete_expired_users}
use ai_planner.Cleanup.Removal.{hard_delete_expired_users-keeps}

-- Ann has left at 1000.
abbrev left : Store
left = record store { users = record ann { deleted_at = some 1000 } ∷ bob ∷ [] }

never : ℕ → Bool
never _ = false

bob_stays : (hard_delete_expired_users memory true never 2592001001 left).users ≡ (bob ∷ [])
unfolding hard_delete_expired_users hard_delete_each hard_delete never
bob_stays = refl

ids_differ : IsUnique (λ (u : User). u.id) left.users
ids_differ = ((omega arith, tt), (tt, tt))

hard_delete_expired_users-keeps_example :
    select
      (λ (u : User). not (is_expired 2592001001 u))
      (hard_delete_expired_users memory true never 2592001001 left).users
    ≡ select (λ (u : User). not (is_expired 2592001001 u)) left.users
hard_delete_expired_users-keeps_example =
    hard_delete_expired_users-keeps memory true never 2592001001 left ids_differ
