-- ===== src/Limiter/Supply.antt =====
-- What a step of examples/ratelimiter/limiter.go does to the tokens and to the permits granted.
-- Whether a call has taken a token and not returned.
use mathlib.Core.Path.{subst}
use go_concurrency_examples.Base.{
  Bool-cases, ap, arith, if◌then◌else◌, inl, inr, refl, some, suc, sum_below, sum_below-update,
  true, update, ℕ, ◌+◌, ◌-◌, ◌<◌, ◌==◌, ◌∙◌, ◌≡◌, ◌≤◌,
}
use go_concurrency_examples.Limiter.{
  Call, Limiter, act_turn, go_to, idle, settle, stop_first, stop_last, try_check, try_got,
  try_select, wait_check, wait_got, wait_select, over,
}

abbrev pub has_token : Call → ℕ
has_token wait_got = 1
has_token try_got = 1
has_token idle = 0
has_token wait_check = 0
has_token wait_select = 0
has_token try_check = 0
has_token try_select = 0
has_token stop_first = 0
has_token stop_last = 0

abbrev pub holding : ℕ → Limiter → ℕ
holding n l = sum_below (λ k. has_token (l.calls k)) n

-- From `l` to `m`: tokens come from `refill` alone and none is lost but to a call that returns, there
-- are at most `burst`, `refill` adds at most one a tick, and a stopped limiter grants nothing.
pub record Kept (n burst : ℕ) (l m : Limiter) : Type 0 where
  pub supply :
      m.granted + m.dropped + holding n m + m.tokens + l.added
      ≡ l.granted + l.dropped + holding n l + l.tokens + m.added
  pub capped : l.tokens ≤ burst → m.tokens ≤ burst
  pub paced : m.added + l.ticks ≤ l.added + m.ticks
  pub grows : l.dropped ≤ m.dropped
  pub stays : l.done ≡ true → (m.done ≡ true) × (m.granted ≡ l.granted)

pub Kept-refl : (n burst : ℕ) (l : Limiter) → Kept n burst l l
Kept-refl n burst l = record {
  supply = refl;
  capped = λ h. h;
  paced = omega arith;
  grows = omega arith;
  stays = λ h. (h, refl);
}

pub Kept-trans :
    {n burst : ℕ} {k l m : Limiter} → Kept n burst k l → Kept n burst l m → Kept n burst k m
Kept-trans a b = record {
  supply = omega (arith, a.supply, b.supply);
  capped = λ h. b.capped (a.capped h);
  paced = omega (arith, a.paced, b.paced);
  grows = omega (arith, a.grows, b.grows);
  stays = λ h. let (s, e) = a.stays h in let (t, f) = b.stays s in (t, f ∙ e);
}

-- What a step of one call does, `old` before it and `now` after it.
record Moved (burst : ℕ) (l m : Limiter) (old now : Call) : Type 0 where
  supplied :
      m.granted + m.dropped + has_token now + m.tokens + l.added
      ≡ l.granted + l.dropped + has_token old + l.tokens + m.added
  cap_kept : l.tokens ≤ burst → m.tokens ≤ burst
  pace_kept : m.added + l.ticks ≤ l.added + m.ticks
  dropped_grows : l.dropped ≤ m.dropped
  done_stays : l.done ≡ true → (m.done ≡ true) × (m.granted ≡ l.granted)

module _ {n burst g : ℕ} {l m : Limiter} {old now : Call} where
  Moved-Kept :
      g < n
      → l.calls g ≡ old
      → update l.calls g now ≡ m.calls
      → Moved burst l m old now
      → Kept n burst l m
  Moved-Kept lt is e moved =
      let sums : holding n m + has_token old ≡ holding n l + has_token now =
        subst
          (λ (f : ℕ → Call).
            sum_below (λ k. has_token (f k)) n + has_token old ≡ holding n l + has_token now)
          e
          (omega (arith, sum_below-update (λ k. has_token) n l.calls g now lt, ap has_token is)) in
      record {
        supply = omega (arith, sums, moved.supplied);
        capped = moved.cap_kept;
        paced = moved.pace_kept;
        grows = moved.dropped_grows;
        stays = moved.done_stays;
      }

module _ {n burst g : ℕ} {l : Limiter} where
  -- A call goes on that neither takes nor gives up a token.
  pub untouched :
      (old now : Call) (m : Limiter)
      → g < n
      → l.calls g ≡ old
      → update l.calls g now ≡ m.calls
      → has_token now ≡ has_token old
      → (m.tokens ≡ l.tokens)
        × (m.granted ≡ l.granted)
        × (m.dropped ≡ l.dropped)
        × (m.added ≡ l.added)
        × (m.ticks ≡ l.ticks)
      → (l.done ≡ true → m.done ≡ true)
      → Kept n burst l m
  untouched old now m lt is e same (tokens, granted, dropped, added, ticks) done_on =
      Moved-Kept lt is e (record {
        supplied = omega (arith, same, tokens, granted, dropped, added);
        cap_kept = λ h. omega (arith, h, tokens);
        pace_kept = omega (arith, added, ticks);
        dropped_grows = omega (arith, dropped);
        done_stays = λ h. (done_on h, granted);
      })

  pub plain :
      (old now : Call)
      → g < n
      → l.calls g ≡ old
      → has_token now ≡ has_token old
      → Kept n burst l (go_to g now l)
  unfolding go_to
  plain old now lt is same =
      untouched old now (record l { calls = update l.calls g now }) lt is refl same
        (refl, refl, refl, refl, refl) (λ h. h)

  pub taken-Kept :
      (old now : Call)
      → g < n
      → l.calls g ≡ old
      → has_token now ≡ suc (has_token old)
      → 0 < l.tokens
      → Kept n burst l (go_to g now (record l { tokens = l.tokens - 1 }))
  unfolding go_to
  taken-Kept old now lt is more some_left = Moved-Kept lt is refl (record {
    supplied = omega (arith, more, some_left);
    cap_kept = λ h. omega (arith, h);
    pace_kept = omega arith;
    dropped_grows = omega arith;
    done_stays = λ h. (h, refl);
  })

  settle-Kept :
      (old : Call) → g < n → l.calls g ≡ old → has_token old ≡ 1 → Kept n burst l (settle g l)
  unfolding settle go_to
  settle-Kept old lt is one = elim (Bool-cases l.done) [
    | inl shut ↦ subst (Kept n burst l) (ground (arith, shut)) (
        Moved-Kept {m = record l { dropped = suc l.dropped; calls = update l.calls g idle }} lt is
          refl
          (record {
            supplied = omega (arith, one);
            cap_kept = λ h. h;
            pace_kept = omega arith;
            dropped_grows = omega arith;
            done_stays = λ h. (h, refl);
          }))
    | inr live ↦ subst (Kept n burst l) (ground (arith, live)) (
        Moved-Kept {m = record l { granted = suc l.granted; calls = update l.calls g idle }} lt is
          refl
          (record {
            supplied = omega (arith, one);
            cap_kept = λ h. h;
            pace_kept = omega arith;
            dropped_grows = omega arith;
            done_stays = λ h. cc;
          }))
  ]

  checked-Kept :
      (old now : Call)
      → g < n
      → l.calls g ≡ old
      → has_token old ≡ 0
      → has_token now ≡ 0
      → Kept n burst l (go_to g (if l.done then idle else now) l)
  checked-Kept old now lt is zero_old zero_now = elim (Bool-cases l.done) [
    | inl shut ↦
        subst (λ c. Kept n burst l (go_to g c l)) (ground (arith, shut))
          (plain old idle lt is (ground (arith, zero_old)))
    | inr live ↦
        subst (λ c. Kept n burst l (go_to g c l)) (ground (arith, live))
          (plain old now lt is (ground (arith, zero_old, zero_now)))
  ]

  pub turn-Kept :
      (c : Call) {m : Limiter} → g < n → l.calls g ≡ c → act_turn g c l ≡ some m → Kept n burst l m
  unfolding act_turn
  turn-Kept idle lt is e = ground (arith, e)
  turn-Kept wait_check lt is e =
      subst (Kept n burst l) (ground (arith, e))
        (checked-Kept wait_check wait_select lt is refl refl)
  turn-Kept wait_select lt is e = ground (arith, e)
  turn-Kept wait_got lt is e =
      subst (Kept n burst l) (ground (arith, e)) (settle-Kept wait_got lt is refl)
  turn-Kept try_check lt is e =
      subst (Kept n burst l) (ground (arith, e)) (checked-Kept try_check try_select lt is refl refl)
  turn-Kept try_select lt is e = elim (Bool-cases (l.tokens == 0)) [
    | inl empty ↦
        subst (Kept n burst l) (ground (arith, empty, e)) (plain try_select idle lt is refl)
    | inr more ↦
        subst (Kept n burst l) (ground (arith, more, e))
          (taken-Kept try_select try_got lt is refl (ground (arith, more)))
  ]
  turn-Kept try_got lt is e =
      subst (Kept n burst l) (ground (arith, e)) (settle-Kept try_got lt is refl)
  turn-Kept stop_first lt is e = subst (Kept n burst l) (ground (arith, e)) (
      untouched stop_first stop_last
        (record l { stopped = true; calls = update l.calls g stop_last }) lt is refl refl
        (refl, refl, refl, refl, refl) (λ h. h))
  turn-Kept stop_last lt is e = subst (Kept n burst l) (ground (arith, e)) (
      untouched stop_last idle
        (record l { stop = true; once = over; calls = update l.calls g idle }) lt is refl refl
        (refl, refl, refl, refl, refl) (λ h. h))
