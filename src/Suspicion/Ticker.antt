-- ===== src/Suspicion/Ticker.antt =====
-- The goroutine of utils/suspicion.go: `Start` starts a loop that runs `check`, and `Stop` cancels it and
-- waits for its end. `Start` may come at any time, also while a call of `Stop` waits; the calls of `Stop`
-- come one after another.
use distributed_group_member.Common.{
  ◌≡◌, refl, sym, ℕ, ◌+◌, ◌≤◌, Bool, true, false, List, [], ◌∷◌, ◌++◌, ◌⊎◌, inl, inr, if◌then◌else◌,
  if_cases, subst, arith,
}
use distributed_group_member.Node.Ticking.{
  Goroutine, looping, at, LoopStep, LoopStep-count, LoopStep-empty, count, Runs, still, Runs-end,
  any_closed, has,
}

pub data CheckLoop : Type 0 where
  check_loop : CheckLoop

-- Where a call of `Stop` is: none runs, it is in `wg.Wait`, or `wg.Wait` has returned.
pub data StopStage : Type 0 where
  not_stopping in_wait after_wait : StopStage

pub record Ticker : Type 0 where
  pub started : Bool
  -- none, or the context of the last `Start`
  pub ctx : List ℕ
  pub made : ℕ
  pub cancelled : List ℕ
  pub running : List (Goroutine CheckLoop)
  pub stopping : StopStage

unfoldable pub new_ticker : Ticker
new_ticker = record {
  started = false;
  ctx = [];
  made = 0;
  cancelled = [];
  running = [];
  stopping = not_stopping;
}

unfoldable pub start_ticker : Ticker → Ticker
start_ticker s = if s.started then s else record s {
  started = true;
  ctx = s.made ∷ [];
  made = s.made + 1;
  running = at check_loop looping ∷ s.running;
}

-- `Stop` until `wg.Wait`.
unfoldable pub cancel_ticker : Ticker → Ticker
cancel_ticker s =
    if s.started then record s { cancelled = s.ctx ++ s.cancelled; stopping = in_wait } else s

-- `Stop` after `wg.Wait`.
unfoldable pub finish_ticker : Ticker → Ticker
finish_ticker s = record s { started = false; stopping = not_stopping }

-- `loop`
abbrev pub Loop : Ticker → List (Goroutine CheckLoop) → Type 0
Loop s = LoopStep check_loop s.ctx s.cancelled s.running

pub data Step (s : Ticker) : Ticker → Type 0 where
  starts : Step s (start_ticker s)
  cancels : s.stopping ≡ not_stopping → Step s (cancel_ticker s)
  waits : s.stopping ≡ in_wait → s.running ≡ [] → Step s (record s { stopping = after_wait })
  finishes : s.stopping ≡ after_wait → Step s (finish_ticker s)
  loops : {gs : List (Goroutine CheckLoop)} → Loop s gs → Step s (record s { running = gs })

pub data Reaches (from : Ticker) : Ticker → Type 0 where
  here : Reaches from from
  then_step : {s t : Ticker} → Reaches from s → Step s t → Reaches from t

record Inv (s : Ticker) : Type 0 where
  single : count (λ _. true) s.running ≤ 1
  ended : s.started ≡ false → s.running ≡ []
  waited : s.stopping ≡ after_wait → s.running ≡ []
  idle : s.started ≡ false → s.stopping ≡ not_stopping
  no_context : s.ctx ≡ [] → s.running ≡ []
  cancelled_in_wait :
      s.stopping ≡ in_wait → (s.running ≡ []) ⊎ (any_closed s.ctx s.cancelled ≡ true)

new_ticker-Inv : Inv new_ticker
unfolding new_ticker count
new_ticker-Inv = record {
  single = omega arith;
  ended = λ _. refl;
  waited = λ _. refl;
  idle = λ _. refl;
  no_context = λ _. refl;
  cancelled_in_wait = λ _. inl refl;
}

start_ticker-Inv : (s : Ticker) → Inv s → Inv (start_ticker s)
unfolding start_ticker count
start_ticker-Inv s inv =
    if_cases Inv s.started (λ _. inv)
      (λ off. record {
        single = rw (inv.ended off) (omega arith);
        ended = λ a. absurd (cc);
        waited = λ w. absurd (cc (inv.idle off));
        idle = λ a. absurd (cc);
        no_context = λ none. absurd (cc);
        cancelled_in_wait = λ w. absurd (cc (inv.idle off));
      })

closes : (cs ds : List ℕ) → (cs ≡ []) ⊎ (any_closed cs (cs ++ ds) ≡ true)
unfolding any_closed has
closes [] ds = inl refl
closes (c ∷ cs) ds = inr (ground arith)

cancel_ticker-Inv : (s : Ticker) → Inv s → Inv (cancel_ticker s)
unfolding cancel_ticker
cancel_ticker-Inv s inv =
    if_cases Inv s.started
      (λ on. record {
        single = inv.single;
        ended = inv.ended;
        waited = λ w. absurd (cc);
        idle = λ off. absurd (cc);
        no_context = inv.no_context;
        cancelled_in_wait = λ _. elim (closes s.ctx s.cancelled) [
          | inl none ↦ inl (inv.no_context none)
          | inr shut ↦ inr shut
        ];
      })
      (λ _. inv)

Step-Inv : {s t : Ticker} → Step s t → Inv s → Inv t
unfolding finish_ticker
Step-Inv {s} starts inv = start_ticker-Inv s inv
Step-Inv {s} (cancels e) inv = cancel_ticker-Inv s inv
Step-Inv (waits e none) inv = record {
  single = inv.single;
  ended = inv.ended;
  waited = λ _. none;
  idle = λ off. absurd (cc (inv.idle off));
  no_context = inv.no_context;
  cancelled_in_wait = λ w. absurd (cc);
}
Step-Inv (finishes e) inv = record {
  single = inv.single;
  ended = λ _. inv.waited e;
  waited = λ w. absurd (cc);
  idle = λ _. refl;
  no_context = inv.no_context;
  cancelled_in_wait = λ w. absurd (cc);
}
Step-Inv (loops step) inv = record {
  single = omega (arith, LoopStep-count (λ _. true) step, inv.single);
  ended = λ off. LoopStep-empty step (inv.ended off);
  waited = λ e. LoopStep-empty step (inv.waited e);
  idle = inv.idle;
  no_context = λ e. LoopStep-empty step (inv.no_context e);
  cancelled_in_wait = λ e. elim (inv.cancelled_in_wait e) [
    | inl none ↦ inl (LoopStep-empty step none)
    | inr shut ↦ inr shut
  ];
}

Reaches-Inv : {s : Ticker} → Reaches new_ticker s → Inv s
Reaches-Inv here = new_ticker-Inv
Reaches-Inv (then_step r step) = Step-Inv step (Reaches-Inv r)

-- In every state that the suspicion manager reaches, at most one loop runs, and none while it is not
-- started; and where `Stop` waits, the loop by itself can come to its end.
pub ticker_once :
    {s : Ticker}
    → Reaches new_ticker s
    → (count (λ _. true) s.running ≤ 1)
      × (s.started ≡ false → s.running ≡ [])
      × (s.stopping ≡ in_wait → Runs (λ _. s.ctx) s.cancelled s.running [])
ticker_once {s} r =
    let inv = Reaches-Inv r in
    (
      inv.single,
      inv.ended,
      λ e. elim (inv.cancelled_in_wait e) [
        | inl none ↦ subst (λ gs. Runs (λ _. s.ctx) s.cancelled gs []) (sym none) still
        | inr shut ↦ Runs-end (λ _. shut) s.running
      ],
    )
