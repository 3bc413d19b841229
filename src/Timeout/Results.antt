-- ===== src/Timeout/Results.antt =====
-- What Run of examples/timeoutworker returns, and that its goroutine ends.
use mathlib.Core.Path.{subst}
use go_concurrency_examples.Base.{
  Context, CtxError, Option, arith, inr, is_some, none, refl, some, true, ◌≡◌, ◌⊎◌, ap, inl, Reach,
  Reach-inv,
}
use go_concurrency_examples.Timeout.{
  Error, Main, Run, Worker, answer_of, ctx_error, ended, give_up, go_on, returned, sending,
  take_result, waiting, working, cancel_ctx, Step, act, cancel, goroutine, initial, on_ctx, receive,
  send_result, worker_turn, observe,
}

module _ {V E : Type 0} (zero_value : V) (work : Context → V × Option E) where
  -- What the work returned, given the context as it was then.
  abbrev pub IsResult : Option Context → V × Option E → Type 0
  IsResult seen r = (ctx : Context) × (seen ≡ some ctx) × (r ≡ work ctx)

  abbrev pub IsAnswer : Run V E → V × Option (Error E) → Type 0
  IsAnswer s a =
      ((ctx : Context) × (s.seen ≡ some ctx) × (a ≡ answer_of (work ctx)))
      ⊎ ((e : CtxError) × (s.ctx ≡ some e) × (a ≡ (zero_value, some (ctx_error e))))

  abbrev IsSent : Option Context → Worker V E → Option (V × Option E) → Type 0
  IsSent seen working d = (d ≡ none) × (seen ≡ none)
  IsSent seen (sending r) d = (d ≡ none) × IsResult seen r
  IsSent seen ended none = Unit {0}
  IsSent seen ended (some r) = IsResult seen r

  abbrev IsDone : Run V E → Main → Type 0
  IsDone s waiting = s.worker ≡ ended → is_some s.done ≡ true
  IsDone s returned = (a : V × Option (Error E)) × (s.answer ≡ some a) × IsAnswer s a

  record Inv (s : Run V E) : Type 0 where
    sent : IsSent s.seen s.worker s.done
    finished : IsDone s s.main

  is_result :
      (seen : Option Context) (w : Worker V E) (r : V × Option E)
      → IsSent seen w (some r)
      → IsResult seen r
  is_result seen working r (empty, unseen) = cc
  is_result seen (sending q) r (empty, result) = cc
  is_result seen ended r h = h

  emptied :
      (seen : Option Context) (w : Worker V E) (r : V × Option E)
      → IsSent seen w (some r)
      → IsSent seen w none
  emptied seen working r (empty, unseen) = cc
  emptied seen (sending q) r (empty, result) = cc
  emptied seen ended r h = tt

  -- Whether Run has its answer does not depend on the goroutine.
  IsDone-worker :
      (s : Run V E) (w : Worker V E) (d : Option (V × Option E)) (m : Main)
      → (w ≡ ended → is_some d ≡ true)
      → IsDone s m
      → IsDone (record s { worker = w; done = d }) m
  IsDone-worker s w d waiting full h = full
  IsDone-worker s w d returned full h = h

  IsDone-cancel :
      (s : Run V E) (err : CtxError) (m : Main)
      → s.ctx ≡ none
      → IsDone s m
      → IsDone (record s { ctx = some err }) m
  IsDone-cancel s err waiting free h = h
  IsDone-cancel s err returned free (a, is, inl found) = (a, is, inl found)
  IsDone-cancel s err returned free (a, is, inr (e, over_now, found)) = cc

  -- Run has no result of the work before that has returned.
  IsDone-observe :
      (s : Run V E) (w : Worker V E) (seen : Option Context) (m : Main)
      → s.seen ≡ none
      → (w ≡ ended → is_some s.done ≡ true)
      → IsDone s m
      → IsDone (record s { worker = w; seen = seen }) m
  IsDone-observe s w seen waiting unseen full h = full
  IsDone-observe s w seen returned unseen full (a, is, inl (c, saw, found)) = cc
  IsDone-observe s w seen returned unseen full (a, is, inr found) = (a, is, inr found)

  module _ {s : Run V E} (inv : Inv s) where
    worked :
        s.done ≡ none
        → s.seen ≡ none
        → Inv (record s { worker = sending (work s.ctx); seen = some s.ctx })
    worked empty unseen = record {
      sent = (empty, (s.ctx, refl, refl));
      finished =
          IsDone-observe s (sending (work s.ctx)) (some s.ctx) s.main unseen (λ e. cc) inv.finished;
    }

    sent_result :
        (r : V × Option E) → IsResult s.seen r → Inv (record s { done = some r; worker = ended })
    sent_result r result = record {
      sent = result;
      finished = IsDone-worker s ended (some r) s.main (λ e. refl) inv.finished;
    }

    taken :
        (r : V × Option E)
        → IsResult s.seen r
        → IsSent s.seen s.worker (some r)
        → Inv (record s {
          ctx = cancel_ctx s.ctx;
          main = returned;
          done = none;
          answer = some (answer_of r);
        })
    taken r (ctx, saw, e) h = record {
      sent = emptied s.seen s.worker r h;
      finished = (answer_of r, refl, inl (ctx, saw, ap answer_of e));
    }

    gave_up :
        (err : CtxError)
        → s.ctx ≡ some err
        → Inv (record s { main = returned; answer = some (zero_value, some (ctx_error err)) })
    gave_up err is = record {
      sent = inv.sent;
      finished = ((zero_value, some (ctx_error err)), refl, inr (err, is, refl));
    }

  module _ {s t : Run V E} (inv : Inv s) where
    go_on-Inv :
        (w : Worker V E)
        → s.worker ≡ w
        → IsSent s.seen w s.done
        → go_on work w (observe w s) ≡ some t
        → Inv t
    unfolding go_on observe
    go_on-Inv working is (empty, unseen) e = subst Inv (ground (arith, e)) (worked inv empty unseen)
    go_on-Inv (sending r) is (empty, result) e =
        subst Inv (ground (arith, empty, e)) (sent_result inv r result)
    go_on-Inv ended is h e = ground (arith, e)

    take-Inv :
        (m : Main) (d : Option (V × Option E))
        → s.main ≡ m
        → s.done ≡ d
        → IsSent s.seen s.worker d
        → take_result m d s ≡ some t
        → Inv t
    unfolding take_result
    take-Inv waiting (some r) at is h e =
        subst Inv (ground (arith, e)) (taken inv r (is_result s.seen s.worker r h) h)
    take-Inv waiting none at is h e = ground (arith, e)
    take-Inv returned d at is h e = ground (arith, e)

    give_up-Inv :
        (m : Main) (c : Context)
        → s.main ≡ m
        → s.ctx ≡ c
        → give_up zero_value m c s ≡ some t
        → Inv t
    unfolding give_up
    give_up-Inv waiting (some err) at is e = subst Inv (ground (arith, e)) (gave_up inv err is)
    give_up-Inv waiting none at is e = ground (arith, e)
    give_up-Inv returned c at is e = ground (arith, e)

  Step-Inv : (s t : Run V E) → Step zero_value work s t → Inv s → Inv t
  unfolding act
  Step-Inv s t (goroutine worker_turn e) inv = go_on-Inv inv s.worker refl inv.sent e
  Step-Inv s t (goroutine receive e) inv = take-Inv inv s.main s.done refl refl inv.sent e
  Step-Inv s t (goroutine on_ctx e) inv = give_up-Inv inv s.main s.ctx refl refl e
  Step-Inv s t (cancel err free e) inv =
      subst Inv e
        (record { sent = inv.sent; finished = IsDone-cancel s err s.main free inv.finished })

  initial-Inv : (ctx : Context) → Inv (initial ctx)
  unfolding initial
  initial-Inv ctx = record { sent = (refl, refl); finished = λ e. cc }

  Reach-Good : {s : Run V E} (ctx : Context) → Reach (Step zero_value work) (initial ctx) s → Inv s
  Reach-Good ctx r = Reach-inv Inv (λ s t st. Step-Inv s t st) (initial-Inv ctx) r

  done_answer :
      (s : Run V E) (m : Main)
      → m ≡ returned
      → IsDone s m
      → (a : V × Option (Error E)) × (s.answer ≡ some a) × IsAnswer s a
  done_answer s waiting is h = cc
  done_answer s returned is h = h

  worker_goes :
      (s : Run V E) (w : Worker V E)
      → s.worker ≡ w
      → IsSent s.seen w s.done
      → (w ≡ ended) ⊎ (is_some (act zero_value work worker_turn s) ≡ true)
  unfolding act go_on send_result observe
  worker_goes s working is h = inr (ground (arith, is))
  worker_goes s (sending r) is (empty, result) = inr (ground (arith, is, empty))
  worker_goes s ended is h = inl refl

  -- In every reachable state, the goroutine of the work has ended or can take a step, also after Run
  -- has returned without its result: it is never blocked on its send.
  pub timeout_no_leak :
      {s : Run V E} (ctx : Context)
      → Reach (Step zero_value work) (initial ctx) s
      → (s.worker ≡ ended) ⊎ (is_some (act zero_value work worker_turn s) ≡ true)
  timeout_no_leak {s} ctx r = worker_goes s s.worker refl (Reach-Good ctx r).sent

  -- When Run has returned, its answer is what the work returned, given its context as it was when the
  -- work returned, or the zero value and the error of the context, which is done.
  pub timeout_result :
      {s : Run V E} (ctx : Context)
      → Reach (Step zero_value work) (initial ctx) s
      → s.main ≡ returned
      → (a : V × Option (Error E)) × (s.answer ≡ some a) × IsAnswer s a
  timeout_result {s} ctx r is = done_answer s s.main is (Reach-Good ctx r).finished
