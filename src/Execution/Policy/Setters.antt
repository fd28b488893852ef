-- ===== src/Execution/Policy/Setters.antt =====
-- src/execution/policy.rs: the policies with one field set.
use poly_bot.Prelude.{ℕ, Bool}
use poly_bot.Decimal.{Decimal}
use poly_bot.Execution.Policy.{TakerPolicy, MakerPolicy, DualPolicy}

unfoldable pub taker_with_expiration : TakerPolicy → ℕ → TakerPolicy
taker_with_expiration p secs = record p { expiration_secs = secs }

unfoldable pub with_post_only : MakerPolicy → Bool → MakerPolicy
with_post_only p post_only = record p { post_only = post_only }

unfoldable pub with_price_offset : MakerPolicy → Decimal → MakerPolicy
with_price_offset p cents = record p { price_offset_cents = cents }

unfoldable pub maker_with_expiration : MakerPolicy → ℕ → MakerPolicy
maker_with_expiration p secs = record p { expiration_secs = secs }

unfoldable pub with_maker_offset : DualPolicy → Decimal → DualPolicy
unfolding with_price_offset
with_maker_offset p price_offset_cents = record p {
  maker = with_price_offset p.maker price_offset_cents;
}

unfoldable pub with_taker_expiration : DualPolicy → ℕ → DualPolicy
unfolding taker_with_expiration
with_taker_expiration p secs = record p { taker = taker_with_expiration p.taker secs }

unfoldable pub with_maker_expiration : DualPolicy → ℕ → DualPolicy
unfolding maker_with_expiration
with_maker_expiration p secs = record p { maker = maker_with_expiration p.maker secs }
