-- ===== src/Limiter/Waits.antt =====
-- When a call of examples/ratelimiter/limiter.go waits.
use go_concurrency_examples.Base.{
  Bool, Bool-cases, Option-cases, arith, dec_lt, false, inl, inr, is_some, none, refl, true, ℕ,
  ◌==◌, ◌≡◌, ◌≢◌, ◌⊎◌,
}
use go_concurrency_examples.Limiter.{
  Call, Choice, Limiter, act, act_turn, halt, idle, on_ctx, on_stopped, refill, start_stop,
  start_try, start_wait, stop_first, stop_last, take, tick, try_check, try_got, try_select, turn,
  wait_check, wait_got, wait_select,
}

-- The steps of the call of one goroutine.
abbrev is_of : ℕ → Choice → Bool
is_of g (turn k) = k == g
is_of g (on_ctx k) = k == g
is_of g (on_stopped k) = k == g
is_of g (take k) = k == g
is_of g (start_wait k ctx) = false
is_of g (start_try k) = false
is_of g (start_stop k) = false
is_of g tick = false
is_of g refill = false
is_of g halt = false

abbrev pub GoesOn : ℕ → ℕ → Limiter → Type 0
GoesOn burst g l = (x : Choice) × (is_of g x ≡ true) × (is_some (act burst x l) ≡ true)

-- The call is in the select of Wait, there is no token, the limiter is not stopped, and its context is
-- not done.
abbrev pub IsStarved : ℕ → Limiter → Type 0
IsStarved g l = (l.calls g ≡ wait_select) × (l.tokens ≡ 0) × (l.stopped ≡ false) × (l.ctxs g ≡ none)

select_goes :
    (burst g : ℕ) (l : Limiter) → l.calls g ≡ wait_select → GoesOn burst g l ⊎ IsStarved g l
unfolding act
select_goes burst g l is = elim (dec_lt 0 l.tokens) [
  | yes some_left ↦ inl (take g, ground arith, ground (arith, is, some_left))
  | no empty ↦ elim (Bool-cases l.stopped) [
    | inl shut ↦ inl (on_stopped g, ground arith, ground (arith, is, shut))
    | inr live ↦ elim (Option-cases (l.ctxs g)) [
      | inl waits ↦ inr (is, omega (arith, empty), live, waits)
      | inr (err, over_now) ↦ inl (on_ctx g, ground arith, ground (arith, is, over_now))
    ]
  ]
]

turn_goes :
    (burst g : ℕ) (l : Limiter) → is_some (act_turn g (l.calls g) l) ≡ true → GoesOn burst g l
unfolding act
turn_goes burst g l h = (turn g, ground arith, h)

call_goes :
    (burst g : ℕ) (l : Limiter) (c : Call)
    → l.calls g ≡ c
    → c ≢ idle
    → GoesOn burst g l ⊎ IsStarved g l
unfolding act_turn
call_goes burst g l idle is busy = absurd (busy refl)
call_goes burst g l wait_select is busy = select_goes burst g l is
call_goes burst g l wait_check is busy = inl (turn_goes burst g l (ground (arith, is)))
call_goes burst g l wait_got is busy = inl (turn_goes burst g l (ground (arith, is)))
call_goes burst g l try_check is busy = inl (turn_goes burst g l (ground (arith, is)))
call_goes burst g l try_select is busy = inl (turn_goes burst g l (ground (arith, is)))
call_goes burst g l try_got is busy = inl (turn_goes burst g l (ground (arith, is)))
call_goes burst g l stop_first is busy = inl (turn_goes burst g l (ground (arith, is)))
call_goes burst g l stop_last is busy = inl (turn_goes burst g l (ground (arith, is)))

-- In every state, a call of Wait, TryAllow or Stop that is under way can take its next step, or it is
-- in the select of Wait, there is no token, the limiter is not stopped, and its context is not done.
limiter_waits : (burst g : ℕ) (l : Limiter) → l.calls g ≢ idle → GoesOn burst g l ⊎ IsStarved g l
limiter_waits burst g l busy = call_goes burst g l (l.calls g) refl busy
