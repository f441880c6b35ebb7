-- ===== src/Midas/Allow.antt =====
-- midas.rs, `feed_verdict` and `liveness`: when a feed is allowed.
use crossfoot.Base.{
  ℕ, ◌+◌, ◌≤◌, ◌≡◌, ◌↔◌, refl, arith, true, false, Bool, ◌==◌, ◌&&◌, ℤ, saturating_sub,
}
use crossfoot.Midas.{
  Liveness, live, init_only, placeholder, stale, liveness, feed_verdict, allow, is_live, same_ℤ,
}

is_live_lem : (l : Liveness) → (is_live l ≡ true) ↔ (l ≡ live)
is_live_lem live = (λ h. refl, λ h. refl)
is_live_lem init_only = (λ h. ground arith, λ h. cc)
is_live_lem placeholder = (λ h. ground arith, λ h. cc)
is_live_lem stale = (λ h. ground arith, λ h. cc)

-- A feed is allowed exactly when it could be read, no post bypassed its guard, every post is
-- attributed, and it is live; how its path is guarded plays no part.
pub feed_verdict-allow :
    (unreadable : Bool) (bypasses unattributed : ℕ) (l : Liveness) (guarded aggregated : Bool)
    → ((feed_verdict unreadable bypasses unattributed l guarded aggregated).2 ≡ allow)
      ↔ ((unreadable ≡ false) × (bypasses ≡ 0) × (unattributed ≡ 0) × (l ≡ live))
unfolding feed_verdict
feed_verdict-allow unreadable bypasses unattributed l guarded aggregated =
    let (forth, back) = is_live_lem l in
    (
      λ h. (ground arith, ground arith, ground arith, forth (ground arith)),
      λ (r, b, u, e). ground (arith, r, b, u, back e),
    )

-- A feed is live exactly when its last post is recent enough and it is not in its first round with
-- the placeholder answer.
pub liveness-live :
    (latest_round : ℕ) (latest_answer : ℤ) (last_post b1 stale_after : ℕ) (unit : ℤ)
    → (liveness latest_round latest_answer last_post b1 stale_after unit ≡ live) ↔ (
        (b1 ≤ last_post + stale_after)
        × (((latest_round == 1) && same_ℤ latest_answer unit) ≡ false))
unfolding liveness saturating_sub
liveness-live latest_round latest_answer last_post b1 stale_after unit =
    (λ h. (ground arith, ground arith), λ (recent, real). ground (arith, recent, real))
