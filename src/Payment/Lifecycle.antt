-- ===== src/Payment/Lifecycle.antt =====
-- backend/src/modules/payment/payment.service.ts, `syncLifecycle` on one row: the life of a
-- subscription between its payments.
use ai_planner.Prelude.{
  ℕ, ◌+◌, ◌≤◌, ◌<◌, true, false, Option, some, none, ◌≡◌, ◌⊎◌, ◌↔◌, arith, ltb,
}
use ai_planner.Schema.{Subscription, active, grace}
use ai_planner.Payment.Subscriptions.{lifecycle, has_access, grace_period_ms, same_state, same_time}

-- Synchronising twice at one time is synchronising once.
pub lifecycle_idem :
    (now : ℕ) (s : Subscription) → lifecycle now (lifecycle now s) ≡ lifecycle now s
unfolding lifecycle
lifecycle_idem now s = ground arith

-- A limit that is set has not been reached.
abbrev pub IsAhead : ℕ → Option ℕ → Type 0
IsAhead now none = Unit
IsAhead now (some t) = now < t

-- The paid period runs, or the grace time does, which is open while it has not begun.
abbrev pub IsEntitled : ℕ → Subscription → Type 0
IsEntitled now s =
    ((s.status ≡ active) × IsAhead now s.current_period_end)
    ⊎ (((s.status ≡ active) ⊎ (s.status ≡ grace)) × IsAhead now s.grace_ends_at)

-- A status check gives access exactly if the subscription is entitled to it at that time.
pub lifecycle-access_iff :
    (now : ℕ) (s : Subscription) → (has_access (lifecycle now s).status ≡ true) ↔ IsEntitled now s
unfolding lifecycle
lifecycle-access_iff now s = (λ h. ground arith, λ e. ground arith)

-- After the paid period of an active subscription without a grace time is over, the first check
-- gives access and opens the grace time: a later check gives access exactly until three days after that first check, however late the first one comes.
pub lifecycle_grace_exact :
    (first later period_end : ℕ) (s : Subscription)
    → s.status ≡ active
    → s.current_period_end ≡ some period_end
    → s.grace_ends_at ≡ none
    → period_end ≤ first
    → first ≤ later
    → (has_access (lifecycle first s).status ≡ true)
      × (has_access (lifecycle later (lifecycle first s)).status
          ≡ ltb later (first + grace_period_ms))
unfolding lifecycle
lifecycle_grace_exact first later period_end s a p g h k = ground arith

-- Checks alone never bring access back.
pub lifecycle-access_antitone :
    (first later : ℕ) (s : Subscription)
    → first ≤ later
    → has_access (lifecycle first s).status ≡ false
    → has_access (lifecycle later (lifecycle first s)).status ≡ false
unfolding lifecycle
lifecycle-access_antitone first later s h e = ground arith

-- `syncLifecycle` skips its update only where it would change nothing.
pub lifecycle_same :
    (now : ℕ) (s : Subscription)
    → same_state (lifecycle now s).status s.status ≡ true
    → same_time (lifecycle now s).grace_ends_at s.grace_ends_at ≡ true
    → lifecycle now s ≡ s
unfolding lifecycle
lifecycle_same now s h k = ground arith

pub lifecycle_fields :
    (now : ℕ) (s : Subscription)
    → record s {
      status = (lifecycle now s).status;
      grace_ends_at = (lifecycle now s).grace_ends_at;
    }
      ≡ lifecycle now s
unfolding lifecycle
lifecycle_fields now s = ground arith
