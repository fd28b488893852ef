-- ===== src/Types.antt =====
-- The shared types of src/websocket/types.rs and src/error.rs: sides, order types, the errors that
-- the modelled components raise, and the classes of API errors.
use poly_bot.Prelude.{ℕ, Bool, true, false, ◌==◌, if◌then◌else◌, ◌||◌}
use poly_bot.Decimal.{Decimal}

-- Condition ids, token ids, order ids and UUIDs are only compared, so each is a number.
abbrev pub Key : Type 0
Key = ℕ

pub data Side : Type 0 where
  buy sell : Side

abbrev pub side_eq : Side → Side → Bool
side_eq buy buy = true
side_eq sell sell = true
side_eq _ _ = false

pub data OrderType : Type 0 where
  fak gtc fok : OrderType

pub data OrderState : Type 0 where
  created_local signed submitted acked partially_filled filled cancel_pending cancelled expired
        rejected unknown :
      OrderState

-- `BotError::Order` with its text, one constructor for each text that is formatted.
pub data BotError : Type 0 where
  cannot_reserve cannot_settle cannot_withdraw : BotError
  insufficient_funds : (need have : Decimal) → BotError
  insufficient_for_withdrawal : (need have : Decimal) → BotError
  unknown_local_id : Key → BotError
  invalid_transition : (from to : OrderState) → BotError

pub data Result {ℓ} (A : Type ℓ) : Type ℓ where
  ok : A → Result A
  err : BotError → Result A

abbrev pub is_ok {ℓ} : {A : Type ℓ} → Result A → Bool
is_ok (ok _) = true
is_ok (err _) = false

pub data ErrorType : Type 0 where
  retryable fatal expected : ErrorType

-- The texts that `from_error_msg` compares with, as keys. The texts it lists as fatal need none,
-- since any other text is fatal too.
abbrev pub order_delayed : Key
order_delayed = 1

abbrev pub market_not_ready : Key
market_not_ready = 2

abbrev pub fok_order_not_filled_error : Key
fok_order_not_filled_error = 3

unfoldable pub from_error_msg : Key → ErrorType
from_error_msg error_msg =
    if error_msg == order_delayed || error_msg == market_not_ready
    then retryable
    else if error_msg == fok_order_not_filled_error
    then expected
    else fatal

unfoldable pub counts_toward_circuit_breaker : ErrorType → Bool
counts_toward_circuit_breaker fatal = true
counts_toward_circuit_breaker _ = false

unfoldable pub is_retryable : ErrorType → Bool
is_retryable retryable = true
is_retryable _ = false
