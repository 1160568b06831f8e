-- ===== src/Relayd/Pricing/Exact.antt =====
-- The profit of relayd/internal/pricing/pricing.go is computed exactly, and never eats the deposit.
use convert_usdt_from_trc.Base.{
  ℕ, ◌+◌, ◌-◌, ◌*◌, ◌/◌, ◌%◌, ◌^◌, ◌≤◌, ◌<◌, ◌≡◌, refl, sym, ap, ◌∙◌, true, some, ltb,
  if◌then◌else◌, arith,
}
use native.Mathlib.Nat.{mul-add, mul_comm, mul-le-mul, mul_left_comm}
use convert_usdt_from_trc.Base.Int.{
  ℤ, pos, negsuc, ◌≤ℤ◌, ◌<ℤ◌, ◌+ℤ◌, ◌-ℤ◌, ◌*ℤ◌, pos_part, neg_part,
}
use convert_usdt_from_trc.Base.Int64.{IsInt64, wrap64, wrap64_id}
use convert_usdt_from_trc.Money.{Amount}
use convert_usdt_from_trc.Relayd.Pricing.{Config, valid_config, rate_part, profit, split}

number_parts : (n : ℕ) → n ≡ 10000 * (n / 10000) + n % 10000
number_parts n = omega arith

-- n·b by the quotient and the remainder of n.
product_parts : (b n : ℕ) → b * n ≡ 10000 * (b * (n / 10000)) + b * (n % 10000)
product_parts b n =
    ap (λ t. b * t) (number_parts n)
    ∙ mul-add b (10000 * (n / 10000)) (n % 10000)
    ∙ ap (λ t. t + b * (n % 10000)) (mul_left_comm b 10000 (n / 10000))

le_refl : (k : ℕ) → k ≤ k
le_refl k = omega arith

parts_small :
    (b n : ℕ)
    → b < 10000
    → n < 2 ^ 63
    → (b * (n / 10000) < 2 ^ 63) × (b * (n % 10000) < 2 ^ 63) × (b * n / 10000 ≤ n)
parts_small b n hb hn =
    let lb : b ≤ 9999 = omega arith in
    let lr : n % 10000 ≤ 9999 = omega arith in
    let q : b * (n / 10000) ≤ 9999 * (n / 10000) = mul-le-mul lb (le_refl (n / 10000)) in
    let r : b * (n % 10000) ≤ 9999 * 9999 = mul-le-mul lb lr in
    let s : b * n ≤ 9999 * n = mul-le-mul lb (le_refl n) in (omega arith, omega arith, omega arith)

mul_pos : (a b : ℕ) → pos a *ℤ pos b ≡ pos (b * a)
unfolding ◌*ℤ◌
mul_pos a b = ground (arith, mul_comm a b)

add_pos : (a b : ℕ) → pos a +ℤ pos b ≡ pos (a + b)
unfolding ◌+ℤ◌
add_pos a b = ground arith

small : (n : ℕ) → n < 2 ^ 63 → wrap64 (pos n) ≡ pos n
small n h = wrap64_id (pos n) (h, omega arith)

-- No int64 operation of the rate wraps: the result is the exact quotient, rounded down.
rate_part_exact :
    (b n : ℕ) → b < 10000 → n < 2 ^ 63 → rate_part (pos b) (pos n) ≡ pos (b * n / 10000)
unfolding rate_part
rate_part_exact b n hb hn =
    let (hq, hr, ht) = parts_small b n hb hn in
    let whole = ap wrap64 (mul_pos (n / 10000) b) ∙ small (b * (n / 10000)) hq in
    let rest = ap wrap64 (mul_pos (n % 10000) b) ∙ small (b * (n % 10000)) hr in
    let split_up = product_parts b n in
    let same : b * (n / 10000) + b * (n % 10000) / 10000 ≡ b * n / 10000 =
      omega (arith, split_up) in
    rw whole (
      rw rest (
        ap wrap64 (add_pos (b * (n / 10000)) (b * (n % 10000) / 10000) ∙ ap pos same)
        ∙ small (b * n / 10000) (omega arith)))

-- The greater of two numbers.
abbrev pub larger : ℕ → ℕ → ℕ
larger a b = if ltb a b then b else a

profit_at :
    (c : Config) (b m n : ℕ)
    → c.profit_bps ≡ pos b
    → c.min_profit ≡ pos m
    → b < 10000
    → n < 2 ^ 63
    → profit c (pos n) ≡ pos (larger (b * n / 10000) m)
unfolding profit
profit_at c b m n hb hm small_b small_n =
    let exact : rate_part c.profit_bps (pos n) ≡ pos (b * n / 10000) =
      rw hb (rate_part_exact b n small_b small_n) in
    rw exact (rw hm (ground arith))

fair-bounds :
    (c : Config)
    → valid_config c ≡ true
    → (b : ℕ) × (m : ℕ) × (c.profit_bps ≡ pos b)
      × (c.min_profit ≡ pos m)
      × (b < 10000)
      × (m < pos_part c.min_amount_in)
      × (neg_part c.min_amount_in ≡ 0)
unfolding valid_config
fair-bounds c h = (
  pos_part c.profit_bps,
  pos_part c.min_profit,
  ground arith,
  ground arith,
  ground arith,
  ground arith,
  ground arith,
)

-- Under a valid configuration no step of Profit wraps: what is kept of a deposit of n units is n times
-- the rate over 10000, rounded down, or the minimum where that is more.
pub profit_exact :
    (c : Config) (n : ℕ)
    → valid_config c ≡ true
    → n < 2 ^ 63
    → profit c (pos n) ≡ pos (larger (pos_part c.profit_bps * n / 10000) (pos_part c.min_profit))
profit_exact c n valid h =
    let (b, m, hb, hm, small_b, below, sign) = fair-bounds c valid in
    profit_at c b m n hb hm small_b h
    ∙ ap (λ t. pos (larger (t * n / 10000) m)) (sym (ap pos_part hb))
    ∙ ap (λ t. pos (larger (pos_part c.profit_bps * n / 10000) t)) (sym (ap pos_part hm))

deposit_at :
    (c : Config) (u : ℤ)
    → pos_part c.min_amount_in + neg_part u ≤ pos_part u + neg_part c.min_amount_in
    → neg_part c.min_amount_in ≡ 0
    → 0 < pos_part c.min_amount_in
    → u ≡ pos (pos_part u)
deposit_at c (pos n) h z m = refl
deposit_at c (negsuc n) h z m = absurd (omega arith)

profit_below : (b m n k : ℕ) → b < 10000 → m < k → k ≤ n → n < 2 ^ 63 → larger (b * n / 10000) m < n
profit_below b m n k hb hm hk hn =
    let lb : b ≤ 9999 = omega arith in
    let s : b * n ≤ 9999 * n = mul-le-mul lb (le_refl n) in ground arith

-- A split into two parts in the deposit's asset that add up to it, with something to forward.
abbrev pub SplitsWhole : Config → Amount → Type 0
SplitsWhole c received =
    (p : Amount) × (f : Amount) × (split c received ≡ some (p, f))
    × (p.asset ≡ received.asset)
    × (f.asset ≡ received.asset)
    × (p.units +ℤ f.units ≡ received.units)
    × (pos 0 ≤ℤ p.units)
    × (pos 0 <ℤ f.units)

sub_pos : (p n : ℕ) → p < n → pos n -ℤ pos p ≡ pos (n - p)
unfolding ◌-ℤ◌
sub_pos p n h = ground arith

forward_units : (p n : ℕ) → p < n → n < 2 ^ 63 → wrap64 (pos n -ℤ pos p) ≡ pos (n - p)
forward_units p n h k = ap wrap64 (sub_pos p n h) ∙ small (n - p) (omega arith)

split_of :
    (c : Config) (received : Amount) (p n : ℕ)
    → received.units ≡ pos n
    → profit c received.units ≡ pos p
    → p < n
    → n < 2 ^ 63
    → SplitsWhole c received
unfolding split ◌+ℤ◌
split_of c received p n hu hp h k =
    let f = forward_units p n h k in
    (
      record received { units = pos p },
      record received { units = pos (n - p) },
      rw hp (rw hu (ground (arith, f))),
      refl,
      refl,
      rw hu (ground arith),
      omega arith,
      omega arith,
    )

-- Under a valid configuration, Split of a deposit that reaches the smallest amount always leaves
-- something to forward, loses nothing between the two parts, and keeps a profit that is not negative.
pub split_whole :
    (c : Config) (received : Amount)
    → valid_config c ≡ true
    → IsInt64 received.units
    → c.min_amount_in ≤ℤ received.units
    → SplitsWhole c received
split_whole c received valid range h =
    let (b, m, hb, hm, small_b, below, sign) = fair-bounds c valid in
    let u = deposit_at c received.units h sign (omega arith) in
    let n = pos_part received.units in
    split_of c received (larger (b * n / 10000) m) n u
      (ap (profit c) u ∙ profit_at c b m n hb hm small_b range.0)
      (profit_below b m n (pos_part c.min_amount_in) small_b below (omega (arith, sign, h)) range.0)
      range.0
