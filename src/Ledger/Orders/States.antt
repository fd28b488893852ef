-- ===== src/Ledger/Orders/States.antt =====
-- The transition table of `OrderState`, and the histories that it admits.
use poly_bot.Prelude.{◌≡◌, ◌⊎◌, inl, inr, refl, Bool, true, false, arith}
use poly_bot.Types.{OrderState, created_local, signed, submitted, acked, expired, rejected, unknown}
use poly_bot.Ledger.Orders.{can_transition_to, is_terminal}

-- The states that any state may move to.
abbrev pub is_fault : OrderState → Bool
is_fault unknown = true
is_fault expired = true
is_fault rejected = true
is_fault _ = false

-- From a terminal state the table leads to the three faults, and nowhere else: no terminal state is
-- final.
pub can_transition_to_terminal :
    (s t : OrderState) → is_terminal s ≡ true → can_transition_to s t ≡ is_fault t
unfolding can_transition_to is_terminal
can_transition_to_terminal s t h = ground arith

-- A history of an order: each step is in the table.
pub data History : OrderState → OrderState → Type 0 where
  start : {s : OrderState} → History s s
  move : {s t u : OrderState} → History s t → can_transition_to t u ≡ true → History s u

-- The history has been in the state `a`.
abbrev pub Visits : OrderState → {s t : OrderState} → History s t → Type 0
Visits a (start {s}) = s ≡ a
Visits a (move {u = u} h e) = (u ≡ a) ⊎ Visits a h

-- The states of an order that the exchange has not acknowledged.
abbrev pub is_unacknowledged : OrderState → Bool
is_unacknowledged created_local = true
is_unacknowledged signed = true
is_unacknowledged submitted = true
is_unacknowledged unknown = true
is_unacknowledged expired = true
is_unacknowledged rejected = true
is_unacknowledged _ = false

step_unacknowledged :
    (s t : OrderState)
    → can_transition_to s t ≡ true
    → is_unacknowledged s ≡ true
    → (is_unacknowledged t ≡ true) ⊎ (t ≡ acked)
unfolding can_transition_to
step_unacknowledged s t h u = ground arith

Visits-acked :
    {s t : OrderState} (h : History s t)
    → is_unacknowledged s ≡ true
    → (is_unacknowledged t ≡ true) ⊎ Visits acked h
Visits-acked start u = inl u
Visits-acked (move {t = t} {u = w} h e) u = elim (Visits-acked h u) [
  | inr seen ↦ inr (inr seen)
  | inl before ↦ elim (step_unacknowledged t w e before) [
    | inl still ↦ inl still
    | inr now ↦ inr (inl now)
  ]
]

-- Every history of an order that follows the transition table from its creation to an active,
-- filled or cancelled state has been in the acknowledged state.
pub filled_needs_acked :
    {t : OrderState} (h : History created_local t) → is_unacknowledged t ≡ false → Visits acked h
filled_needs_acked h done = elim (Visits-acked h refl) [ inl not_yet ↦ cc | inr seen ↦ seen ]
