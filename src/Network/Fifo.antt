-- ===== src/Network/Fifo.antt =====
-- The receive queue as a bounded queue of messages.
use mathlib.Core.List.{append_assoc, append-nil}
use distributed_group_member.Common.{
  ◌≡◌, refl, sym, ap, ◌∙◌, ℕ, ◌+◌, ◌-◌, ◌≤◌, Bool, true, false, List, [], ◌∷◌, ◌++◌, Option, none,
  some, arith, ltb, length, length-append, if◌then◌else◌, Option-cases, inl, inr,
}
use distributed_group_member.Types.{Text, Message}
use distributed_group_member.Network.{NetworkLayer, capacity, enqueue, receive, next_message}

-- What happens to the queue: a packet comes, with the fate that the random number gives it, or a message
-- is taken out.
pub data Event : Type 0 where
  arrives : Text → Bool → Event
  taken : Event

module _ (decode : Text → Option Message) where
  -- The abstract queue knows only how many messages wait: what enters at an event, and the new count.
  unfoldable pub entering : Event → ℕ → List Message
  entering taken k = []
  entering (arrives packet true) k = []
  entering (arrives packet false) k = elim (decode packet) [
    | none ↦ []
    | some msg ↦ if ltb k capacity then msg ∷ [] else []
  ]

  unfoldable pub fill : Event → ℕ → ℕ
  unfolding entering
  fill taken k = k - 1
  fill (arrives packet drops) k = k + length (entering (arrives packet drops) k)

  unfoldable pub admitted : List Event → ℕ → List Message
  unfolding entering fill
  admitted [] k = []
  admitted (e ∷ es) k = entering e k ++ admitted es (fill e k)

module _ {H : Type 0} (decode : Text → Option Message) where
  -- The layer and the messages that were handed to handlers, oldest first.
  unfoldable pub happen : Event → NetworkLayer H × List Message → NetworkLayer H × List Message
  happen (arrives packet drops) (n, out) = (receive decode drops packet n, out)
  happen taken (n, out) =
      let (n', next) = next_message n in
      elim next [ none ↦ (n', out) | some (msg, h) ↦ (n', out ++ msg ∷ []) ]

  unfoldable pub run : List Event → NetworkLayer H × List Message → NetworkLayer H × List Message
  unfolding happen
  run [] s = s
  run (e ∷ es) s = run es (happen e s)

  -- What holds between a running layer and the count of the abstract queue.
  pub record Fits (n : NetworkLayer H) (k : ℕ) : Type 0 where
    pub running : n.closed ≡ false
    pub counted : length n.message_queue ≡ k
    pub bounded : k ≤ capacity

  happen-Fits :
      (e : Event) (n : NetworkLayer H) (out : List Message) (k : ℕ)
      → Fits n k
      → Fits (happen e (n, out)).0 (fill decode e k)
        × ((happen e (n, out)).1 ++ (happen e (n, out)).0.message_queue
            ≡ (out ++ n.message_queue) ++ entering decode e k)
  unfolding happen fill entering receive enqueue next_message
  happen-Fits taken n out k f = go n.message_queue refl
    where
      go :
          (q : List Message)
          → n.message_queue ≡ q
          → Fits (happen taken (n, out)).0 (fill decode taken k)
            × ((happen taken (n, out)).1 ++ (happen taken (n, out)).0.message_queue
                ≡ (out ++ n.message_queue) ++ entering decode taken k)
      go [] e = ground (arith, e, append-nil (out ++ n.message_queue))
      go (m ∷ ms) e =
          ground (arith, e, append_assoc out (m ∷ []) ms, append-nil (out ++ n.message_queue))
  happen-Fits (arrives packet true) n out k f = ground (arith, append-nil (out ++ n.message_queue))
  happen-Fits (arrives packet false) n out k f = elim (Option-cases (decode packet)) [
    | inl e ↦ ground (arith, append-nil (out ++ n.message_queue))
    | inr (m, e) ↦ ground (
      arith,
      append-nil (out ++ n.message_queue),
      append_assoc out n.message_queue (m ∷ []),
      length-append n.message_queue (m ∷ []),
    )
  ]

  -- Whatever packets come, and whenever messages are taken out: a running layer hands the messages
  -- out in the order in which they entered, none twice and none lost, a message enters exactly if its
  -- packet is not dropped, decodes, and finds less than 1000 waiting, and no more ever wait.
  pub run_lem :
      (es : List Event) (n : NetworkLayer H) (out : List Message) (k : ℕ)
      → Fits n k
      → let (n', out') = run es (n, out) in
        (out' ++ n'.message_queue ≡ (out ++ n.message_queue) ++ admitted decode es k)
        × (length n'.message_queue ≤ capacity)
  unfolding run admitted
  run_lem [] n out k f =
      (sym (append-nil (out ++ n.message_queue)), omega (arith, f.counted, f.bounded))
  run_lem (e ∷ es) n out k f =
      let (g, here) = happen-Fits e n out k f in
      let (later, bound) =
        run_lem es (happen e (n, out)).0 (happen e (n, out)).1 (fill decode e k) g in
      (
        later
            ∙ ap (λ l. l ++ admitted decode es (fill decode e k)) here
            ∙ append_assoc (out ++ n.message_queue) (entering decode e k) _,
        bound,
      )
