-- ===== src/Wsjf/Tiers/Bounds.antt =====
-- Every table lands in the tiers, and is monotone in its feature.
use wood_fired_tasks.Prelude.{ℕ, ◌≤◌, ◌≡◌, refl, Option, none, some, arith, Bool, true, ◌==◌, ◌||◌}
use wood_fired_tasks.Wsjf.Tiers.{
  ℤ, pos, negsuc, fib_clamp, tc_from_days_until, rr_from_fanout, minutes_to_tier, one_step_down,
}

-- Membership in the closed set of tiers.
abbrev pub is_fib : ℕ → Bool
is_fib n = n == 1 || n == 2 || n == 3 || n == 5 || n == 8 || n == 13

abbrev pub IsFib : ℕ → Type 0
IsFib n = is_fib n ≡ true

pub fib_clamp-IsFib : (n : ℕ) → IsFib (fib_clamp n)
unfolding fib_clamp
fib_clamp-IsFib n = ground arith

-- The least tier that is not below the number, for numbers up to the last tier.
fib_clamp_least :
    (n : ℕ) → n ≤ 13 → (n ≤ fib_clamp n) × ((t : ℕ) → IsFib t → n ≤ t → fib_clamp n ≤ t)
unfolding fib_clamp
fib_clamp_least n h = (ground arith, λ t f le. ground arith)

pub tc_from_days_until-IsFib : (d : ℤ) → IsFib (tc_from_days_until d)
unfolding tc_from_days_until
tc_from_days_until-IsFib (pos n) = ground arith
tc_from_days_until-IsFib (negsuc n) = refl

pub tc_from_days_until_antitone :
    (a b : ℕ) → a ≤ b → tc_from_days_until (pos b) ≤ tc_from_days_until (pos a)
unfolding tc_from_days_until
tc_from_days_until_antitone a b h = ground arith

pub rr_from_fanout-IsFib : (n : ℕ) → IsFib (rr_from_fanout n)
unfolding rr_from_fanout
rr_from_fanout-IsFib n = ground arith

pub rr_from_fanout_monotone : (a b : ℕ) → a ≤ b → rr_from_fanout a ≤ rr_from_fanout b
unfolding rr_from_fanout
rr_from_fanout_monotone a b h = ground arith

pub minutes_to_tier-IsFib : (m : Option ℕ) → IsFib (minutes_to_tier m)
unfolding minutes_to_tier
minutes_to_tier-IsFib none = refl
minutes_to_tier-IsFib (some m) = ground arith

-- More minutes never give a smaller job size.
pub minutes_to_tier_monotone :
    (a b : ℕ) → a ≤ b → minutes_to_tier (some a) ≤ minutes_to_tier (some b)
unfolding minutes_to_tier
minutes_to_tier_monotone a b h = ground arith

pub one_step_down-IsFib : (w : ℕ) → IsFib (one_step_down w)
unfolding one_step_down
one_step_down-IsFib w = ground arith

pub one_step_down-le : (w : ℕ) → IsFib w → one_step_down w ≤ w
unfolding one_step_down
one_step_down-le w h = ground arith
