-- ===== src/LogQuerier/Serving.antt =====
-- logquerier/server/server.go, `Serve`: the loop that accepts connections. What `Accept` returns, call
-- after call, is a list; `C` is the type of connections.
use mathlib.Core.List.{append-nil}
use distributed_group_member.Common.{
  ◌≡◌, refl, sym, ap, ◌∙◌, Bool, true, false, ◌||◌, List, [], ◌∷◌, ◌++◌, if◌then◌else◌, All, arith,
}

-- An error with the answers to what the loop asks about it.
pub record AcceptError : Type 0 where
  -- `ctx.Err() != nil`
  pub cancelled : Bool
  -- `errors.Is(err, net.ErrClosed)`
  pub net_closed : Bool
  -- a `net.Error` with `Temporary()`
  pub temporary : Bool

pub data Accept (C : Type 0) : Type 0 where
  connects : C → Accept C
  errs : AcceptError → Accept C

-- How the loop goes on or ends: it waits for the next connection, returns nil, or returns the error.
pub data Serving : Type 0 where
  accepting : Serving
  ends_well : Serving
  ends_with : AcceptError → Serving

-- What comes of an error.
unfoldable pub judge_error : AcceptError → Serving
judge_error e =
    if e.cancelled
    then ends_well
    else if e.net_closed
    then ends_well
    else if e.temporary
    then accepting
    else ends_with e

module _ {C : Type 0} where
  -- The connections that the loop starts `handleConnection` on, and how it stands.
  unfoldable pub serve : List (Accept C) → List C × Serving
  unfolding judge_error
  serve [] = ([], accepting)
  serve (connects c ∷ xs) = let (cs, s) = serve xs in (c ∷ cs, s)
  serve (errs e ∷ xs) =
      let rest = serve xs in
      elim (judge_error e) [
        | accepting ↦ rest
        | ends_well ↦ ([], ends_well)
        | ends_with e' ↦ ([], ends_with e')
      ]

  -- The connections among what `Accept` returns.
  unfoldable pub connections : List (Accept C) → List C
  connections [] = []
  connections (connects c ∷ xs) = c ∷ connections xs
  connections (errs e ∷ xs) = connections xs

-- A connection, or an error that the loop passes over.
abbrev pub Passes : {C : Type 0} → Accept C → Type 0
Passes (connects c) = Unit
Passes (errs e) = (e.cancelled ≡ false) × (e.net_closed ≡ false) × (e.temporary ≡ true)

judge_passes :
    (e : AcceptError)
    → (e.cancelled ≡ false) × (e.net_closed ≡ false) × (e.temporary ≡ true)
    → judge_error e ≡ accepting
unfolding judge_error
judge_passes e (c, n, t) = rw (c, n, t) refl

module _ {C : Type 0} where
  serve-append :
      (before after : List (Accept C))
      → All Passes before
      → serve (before ++ after) ≡ (connections before ++ (serve after).0, (serve after).1)
  unfolding serve connections
  serve-append [] after p = refl
  serve-append (connects c ∷ xs) after (_, p) =
      ap (λ (r : List C × Serving). (c ∷ r.0, r.1)) (serve-append xs after p)
  serve-append (errs e ∷ xs) after (pass, p) =
      rw (judge_passes e pass, serve) (serve-append xs after p)

  serve_until :
      (before after : List (Accept C)) (t : Serving)
      → All Passes before
      → serve after ≡ ([], t)
      → serve (before ++ after) ≡ (connections before, t)
  serve_until before after t p e =
      serve-append before after p
      ∙ ap (λ (r : List C × Serving). (connections before ++ r.0, r.1)) e
      ∙ ap (λ (cs : List C). (cs, t)) (append-nil (connections before))

  serve-stops :
      (after : List (Accept C)) (e : AcceptError)
      → (e.cancelled || e.net_closed) ≡ true
      → serve (errs e ∷ after) ≡ ([], ends_well)
  unfolding serve judge_error
  serve-stops after e stops = ground arith

  serve-fails :
      (after : List (Accept C)) (e : AcceptError)
      → e.cancelled ≡ false
      → e.net_closed ≡ false
      → e.temporary ≡ false
      → serve (errs e ∷ after) ≡ ([], ends_with e)
  unfolding serve judge_error
  serve-fails after e on is_open lasting = ground arith

  -- The loop starts a handler for each connection up to the first error that it does not pass over, in
  -- order, and for none after that. It passes over an error that is temporary, xs long xs it is not
  -- cancelled and the listener is open; it returns nil if it is cancelled or the listener is closed, and
  -- otherwise the error.
  pub serve_lem :
      (before after : List (Accept C)) (e : AcceptError)
      → All Passes before
      → (serve before ≡ (connections before, accepting))
        × ((e.cancelled || e.net_closed) ≡ true
            → serve (before ++ errs e ∷ after) ≡ (connections before, ends_well))
        × (e.cancelled ≡ false
            → e.net_closed ≡ false
            → e.temporary ≡ false
            → serve (before ++ errs e ∷ after) ≡ (connections before, ends_with e))
  unfolding serve
  serve_lem before after e p = (
    ap serve (sym (append-nil before)) ∙ serve_until before [] accepting p refl,
    λ stops. serve_until before (errs e ∷ after) ends_well p (serve-stops after e stops),
    λ on is_open lasting.
        serve_until before (errs e ∷ after) (ends_with e) p
          (serve-fails after e on is_open lasting),
  )
