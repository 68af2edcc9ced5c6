-- ===== src/Node/Ticking.antt =====
-- Goroutines that loop on a ticker: detectors/gossip.go, detectors/pingack.go and utils/suspicion.go have
-- six loops `for { select { case <-stop: return; case <-ticker.C: ... } }`. A loop reads which channels
-- end it each time it comes to its `select`, so it may wait on a channel that has been replaced since.
use distributed_group_member.Common.{
  ◌≡◌, refl, ap, ℕ, ◌+◌, ◌≤◌, Bool, true, false, ◌||◌, List, [], ◌∷◌, ◌++◌, arith, if◌then◌else◌,
  ◌==◌,
}

-- Where a loop is: on its way to the `select`, also while it does its work, or waiting in it.
pub data Stage : Type 0 where
  looping : Stage
  waiting : List ℕ → Stage

pub record Goroutine (K : Type 0) : Type 0 where
  pub kind : K
  pub stage : Stage

unfoldable pub has : ℕ → List ℕ → Bool
has c [] = false
has c (d ∷ ds) = c == d || has c ds

-- One of the channels is closed.
unfoldable pub any_closed : List ℕ → List ℕ → Bool
any_closed [] closed = false
any_closed (c ∷ cs) closed = has c closed || any_closed cs closed

any_closed-nil : (chs : List ℕ) → any_closed chs [] ≡ false
unfolding any_closed has
any_closed-nil [] = refl
any_closed-nil (c ∷ cs) = any_closed-nil cs

module _ {K : Type 0} where
  abbrev pub at : K → Stage → Goroutine K
  at k stage = record { kind = k; stage = stage }

  -- A step of one loop of a kind, wherever it stands among the goroutines: it comes to its `select`, its
  -- ticker fires, or a closed channel ends it. If both are ready `select` takes either.
  pub data LoopStep (k : K) (channels closed : List ℕ) (gs : List (Goroutine K))
      : List (Goroutine K) → Type 0 where
    selects :
        (before after : List (Goroutine K))
        → gs ≡ before ++ at k looping ∷ after
        → LoopStep k channels closed gs (before ++ at k (waiting channels) ∷ after)
    ticks :
        (before after : List (Goroutine K)) (chs : List ℕ)
        → gs ≡ before ++ at k (waiting chs) ∷ after
        → LoopStep k channels closed gs (before ++ at k looping ∷ after)
    ends :
        (before after : List (Goroutine K)) (chs : List ℕ)
        → gs ≡ before ++ at k (waiting chs) ∷ after
        → any_closed chs closed ≡ true
        → LoopStep k channels closed gs (before ++ after)

  -- How many goroutines have a kind that passes the test.
  unfoldable pub count : (K → Bool) → List (Goroutine K) → ℕ
  count p [] = 0
  count p (g ∷ gs) = (if p g.kind then 1 else 0) + count p gs

  pub count-append :
      (p : K → Bool) (gs hs : List (Goroutine K)) → count p (gs ++ hs) ≡ count p gs + count p hs
  unfolding count
  count-append p [] hs = omega arith
  count-append p (g ∷ gs) hs = omega (arith, count-append p gs hs)

  count-at :
      (p : K → Bool) (k : K) (s s' : Stage) (before after : List (Goroutine K))
      → count p (before ++ at k s ∷ after) ≡ count p (before ++ at k s' ∷ after)
  unfolding count
  count-at p k s s' before after =
      omega (arith, count-append p before (at k s ∷ after), count-append p before (at k s' ∷ after))

  count-removed :
      (p : K → Bool) (k : K) (s : Stage) (before after : List (Goroutine K))
      → count p (before ++ after) ≤ count p (before ++ at k s ∷ after)
  unfolding count
  count-removed p k s before after =
      omega (arith, count-append p before (at k s ∷ after), count-append p before after)

  -- A step of a loop starts none.
  pub LoopStep-count :
      {k : K} {channels closed : List ℕ} {gs hs : List (Goroutine K)} (p : K → Bool)
      → LoopStep k channels closed gs hs
      → count p hs ≤ count p gs
  LoopStep-count {k} {channels} p (selects before after e) =
      rw e (omega (arith, count-at p k looping (waiting channels) before after))
  LoopStep-count {k} p (ticks before after chs e) =
      rw e (omega (arith, count-at p k looping (waiting chs) before after))
  LoopStep-count {k} p (ends before after chs e done) =
      rw e (count-removed p k (waiting chs) before after)

  -- Where no channel is closed no loop ends.
  pub LoopStep-count-open :
      {k : K} {channels closed : List ℕ} {gs hs : List (Goroutine K)} (p : K → Bool)
      → LoopStep k channels closed gs hs
      → closed ≡ []
      → count p hs ≡ count p gs
  LoopStep-count-open {k} {channels} p (selects before after e) open_all =
      rw e (count-at p k (waiting channels) looping before after)
  LoopStep-count-open {k} p (ticks before after chs e) open_all =
      rw e (count-at p k looping (waiting chs) before after)
  LoopStep-count-open p (ends before after chs e shut) open_all =
      absurd (cc (any_closed-nil chs, ap (any_closed chs) open_all))

  count-zero : (gs : List (Goroutine K)) → count (λ _. true) gs ≤ 0 → gs ≡ []
  unfolding count
  count-zero [] h = refl
  count-zero (g ∷ gs) h = absurd (omega arith)

  pub LoopStep-empty :
      {k : K} {channels closed : List ℕ} {gs hs : List (Goroutine K)}
      → LoopStep k channels closed gs hs
      → gs ≡ []
      → hs ≡ []
  unfolding count
  LoopStep-empty step e =
      count-zero _ (omega (arith, LoopStep-count (λ _. true) step, ap (count (λ (_ : K). true)) e))

  -- What loops, each with the channels of its kind, come to by themselves.
  pub data Runs (channels : K → List ℕ) (closed : List ℕ)
      : List (Goroutine K) → List (Goroutine K) → Type 0 where
    still : {gs : List (Goroutine K)} → Runs channels closed gs gs
    first :
        (k : K) {gs hs js : List (Goroutine K)}
        → LoopStep k (channels k) closed gs hs
        → Runs channels closed hs js
        → Runs channels closed gs js

  module _ {channels : K → List ℕ} {closed : List ℕ}
      (shut : (k : K) → any_closed (channels k) closed ≡ true) where
    looping_ends :
        (k : K) (gs : List (Goroutine K))
        → Runs channels closed gs []
        → Runs channels closed (at k looping ∷ gs) []
    looping_ends k gs rest =
        first k (selects [] gs refl) (first k (ends [] gs (channels k) refl (shut k)) rest)

    first_ends :
        (k : K) (stage : Stage) (gs : List (Goroutine K))
        → Runs channels closed gs []
        → Runs channels closed (at k stage ∷ gs) []
    first_ends k looping gs rest = looping_ends k gs rest
    first_ends k (waiting chs) gs rest = first k (ticks [] gs chs refl) (looping_ends k gs rest)

    -- Where each kind has a closed channel, all loops can come to their end.
    pub Runs-end : (gs : List (Goroutine K)) → Runs channels closed gs []
    Runs-end [] = still
    Runs-end (g ∷ gs) = first_ends g.kind g.stage gs (Runs-end gs)
