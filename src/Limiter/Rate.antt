-- ===== src/Limiter/Rate.antt =====
-- How many permits examples/ratelimiter/limiter.go grants, and when a call waits.
use mathlib.Core.Path.{subst}
use go_concurrency_examples.Base.{
  Bool-cases, Reach, Reach-inv, arith, inl, inr, ltb, refl, some, true, update, ℕ, ◌+◌, ◌<◌, ◌≡◌,
  ◌≤◌, ap, suc, sum_below, ◌∙◌,
}
use go_concurrency_examples.Limiter.{
  Call, Limiter, Once, Refill, Step, act, add_token, adding, call_stop, cancel, end_refill, ended,
  fresh, go_to, goroutine, halt, hear_tick, idle, is_idle, is_selecting, new_limiter, on_ctx,
  on_stopped, over, refill, selecting, start_stop, start_try, start_wait, started, stop_first,
  stop_last, take, tick, try_check, try_got, try_select, turn, wait_check, wait_got, wait_select,
}
use go_concurrency_examples.Limiter.Supply.{
  Kept, Kept-refl, Kept-trans, holding, plain, taken-Kept, turn-Kept, untouched, has_token,
}

idle_is : (c : Call) → is_idle c ≡ true → c ≡ idle
idle_is idle h = refl
idle_is wait_check h = cc
idle_is wait_select h = cc
idle_is wait_got h = cc
idle_is try_check h = cc
idle_is try_select h = cc
idle_is try_got h = cc
idle_is stop_first h = cc
idle_is stop_last h = cc

selecting_is : (c : Call) → is_selecting c ≡ true → c ≡ wait_select
selecting_is wait_select h = refl
selecting_is idle h = cc
selecting_is wait_check h = cc
selecting_is wait_got h = cc
selecting_is try_check h = cc
selecting_is try_select h = cc
selecting_is try_got h = cc
selecting_is stop_first h = cc
selecting_is stop_last h = cc

module _ {n burst : ℕ} {l : Limiter} where
  stop-Kept :
      (g : ℕ) (o : Once) {m : Limiter}
      → g < n
      → l.calls g ≡ idle
      → call_stop g o l ≡ some m
      → Kept n burst l m
  unfolding call_stop go_to
  stop-Kept g fresh lt is e = subst (Kept n burst l) (ground (arith, e)) (
      untouched idle stop_first
        (record l { once = started; done = true; calls = update l.calls g stop_first }) lt is refl
        refl (refl, refl, refl, refl, refl) (λ h. refl))
  stop-Kept g started lt is e = ground (arith, e)
  stop-Kept g over lt is e = subst (Kept n burst l) (ground (arith, e)) (Kept-refl n burst l)

  -- The calls and the counts stay as they are, but for a tick that finds the channel full.
  idle_step :
      (m : Limiter)
      → m.calls ≡ l.calls
      → (m.tokens ≡ l.tokens)
        × (m.granted ≡ l.granted)
        × (m.dropped ≡ l.dropped)
        × (m.added ≡ l.added)
        × (m.done ≡ l.done)
      → l.ticks ≤ m.ticks
      → Kept n burst l m
  idle_step m same (tokens, granted, dropped, added, done) later = record {
    supply = omega (
      arith,
      tokens,
      granted,
      dropped,
      added,
      ap (λ (f : ℕ → Call). sum_below (λ k. has_token (f k)) n) same,
    );
    capped = λ h. omega (arith, h, tokens);
    paced = omega (arith, later, added);
    grows = omega (arith, dropped);
    stays = λ h. (done ∙ h, granted);
  }

  tick-Kept : (r : Refill) {m : Limiter} → hear_tick r l ≡ some m → Kept n burst l m
  unfolding hear_tick
  tick-Kept selecting e =
      subst (Kept n burst l) (ground (arith, e)) (
        idle_step (record l { refiller = adding }) refl (refl, refl, refl, refl, refl)
          (omega arith))
  tick-Kept adding e = ground (arith, e)
  tick-Kept ended e = ground (arith, e)

  added-Kept :
      ltb l.tokens burst ≡ true
      → Kept n burst l (record l {
        refiller = selecting;
        tokens = suc l.tokens;
        added = suc l.added;
        ticks = suc l.ticks;
      })
  added-Kept room = record {
    supply = omega arith;
    capped = λ h. ground (arith, room);
    paced = omega arith;
    grows = omega arith;
    stays = λ h. (h, refl);
  }

  refill-Kept : (r : Refill) {m : Limiter} → add_token burst r l ≡ some m → Kept n burst l m
  unfolding add_token
  refill-Kept adding e = elim (Bool-cases (ltb l.tokens burst)) [
    | inl room ↦ subst (Kept n burst l) (ground (arith, room, e)) (added-Kept room)
    | inr full ↦ subst (Kept n burst l) (ground (arith, full, e)) (
        idle_step (record l { refiller = selecting; ticks = suc l.ticks }) refl
          (refl, refl, refl, refl, refl) (omega arith))
  ]
  refill-Kept selecting e = ground (arith, e)
  refill-Kept ended e = ground (arith, e)

  end-Kept : (r : Refill) {m : Limiter} → end_refill r l ≡ some m → Kept n burst l m
  unfolding end_refill
  end-Kept selecting e =
      subst (Kept n burst l) (ground (arith, e)) (
        idle_step (record l { refiller = ended }) refl (refl, refl, refl, refl, refl) (omega arith))
  end-Kept adding e = ground (arith, e)
  end-Kept ended e = ground (arith, e)

  Step-Kept : (m : Limiter) → Step n burst l m → Kept n burst l m
  unfolding act go_to
  Step-Kept m (goroutine (start_wait g ctx) lt e) = elim (Bool-cases (is_idle (l.calls g))) [
    | inl free ↦ subst (Kept n burst l) (ground (arith, free, e)) (
        untouched idle wait_check
          (record l { ctxs = update l.ctxs g ctx; calls = update l.calls g wait_check }) lt
          (idle_is (l.calls g) free) refl refl (refl, refl, refl, refl, refl) (λ h. h))
    | inr busy ↦ ground (arith, busy, e)
  ]
  Step-Kept m (goroutine (start_try g) lt e) = elim (Bool-cases (is_idle (l.calls g))) [
    | inl free ↦
        subst (Kept n burst l) (ground (arith, free, e))
          (plain idle try_check lt (idle_is (l.calls g) free) refl)
    | inr busy ↦ ground (arith, busy, e)
  ]
  Step-Kept m (goroutine (start_stop g) lt e) = elim (Bool-cases (is_idle (l.calls g))) [
    | inl free ↦ stop-Kept g l.once lt (idle_is (l.calls g) free) (ground (arith, free, e))
    | inr busy ↦ ground (arith, busy, e)
  ]
  Step-Kept m (goroutine (turn g) lt e) = turn-Kept (l.calls g) lt refl e
  Step-Kept m (goroutine (on_ctx g) lt e) = elim (Bool-cases (is_selecting (l.calls g))) [
    | inl there ↦
        subst (Kept n burst l) (ground (arith, there, e))
          (plain wait_select idle lt (selecting_is (l.calls g) there) refl)
    | inr away ↦ ground (arith, away, e)
  ]
  Step-Kept m (goroutine (on_stopped g) lt e) = elim (Bool-cases (is_selecting (l.calls g))) [
    | inl there ↦
        subst (Kept n burst l) (ground (arith, there, e))
          (plain wait_select idle lt (selecting_is (l.calls g) there) refl)
    | inr away ↦ ground (arith, away, e)
  ]
  Step-Kept m (goroutine (take g) lt e) = elim (Bool-cases (is_selecting (l.calls g))) [
    | inl there ↦ subst (Kept n burst l) (ground (arith, there, e)) (
        taken-Kept wait_select wait_got lt (selecting_is (l.calls g) there) refl
          (ground (arith, there, e)))
    | inr away ↦ ground (arith, away, e)
  ]
  Step-Kept m (goroutine tick lt e) = tick-Kept l.refiller e
  Step-Kept m (goroutine refill lt e) = refill-Kept l.refiller e
  Step-Kept m (goroutine halt lt e) = end-Kept l.refiller e
  Step-Kept m (cancel g err free e) = subst (Kept n burst l) e (
      idle_step (record l { ctxs = update l.ctxs g (some err) }) refl (refl, refl, refl, refl, refl)
        (omega arith))

module _ {n : ℕ} (burst : ℕ) where
  Reach-Kept : {l m : Limiter} → Reach (Step n burst) l m → Kept n burst l m
  Reach-Kept {l} {m} r =
      Reach-inv (Kept n burst l) (λ a b st kept. Kept-trans kept (Step-Kept b st))
        (Kept-refl n burst l) r

  -- In any part of an execution, from a reachable state `l` to a later state `m`, the permits that are
  -- granted are at most `burst`, plus the ticks that `refill` handled in that part, plus the calls
  -- that already had a token in `l`. In every state there are at most `burst` tokens.
  pub limiter_rate :
      {l m : Limiter}
      → Reach (Step n burst) (new_limiter burst) l
      → Reach (Step n burst) l m
      → (m.granted + l.ticks ≤ l.granted + holding n l + burst + m.ticks) × (m.tokens ≤ burst)
  unfolding new_limiter
  limiter_rate {l} {m} before during =
      let a = Reach-Kept before in
      let b = Reach-Kept during in
      let capped : l.tokens ≤ burst = a.capped (omega arith) in
      (omega (arith, b.supply, capped, b.paced, b.grows), b.capped capped)

  -- Once Stop has set `done`, no further permit is granted, neither by a later call nor by one that
  -- already waited or had taken a token.
  pub limiter_stopped :
      {l m : Limiter}
      → Reach (Step n burst) (new_limiter burst) l
      → l.done ≡ true
      → Reach (Step n burst) l m
      → m.granted ≡ l.granted
  limiter_stopped before shut during = ((Reach-Kept during).stays shut).1
