-- ===== src/System/Draining.antt =====
-- `processQueue` of utils/network.go, round after round, while no packet comes.
use distributed_group_member.Common.{
  ◌≡◌, refl, ap, ◌∙◌, ℕ, zero, suc, false, List, [], ◌∷◌, Option, none, some, length, arith,
}
use distributed_group_member.Types.{Message}
use distributed_group_member.Network.{NetworkLayer, next_message}
use distributed_group_member.System.{Handler, Machine, process_queue}
use distributed_group_member.System.Steps.Handling.{dispatch-network}

-- The rounds, at the times of a clock.
unfoldable pub process_rounds : ℕ → (ℕ → ℕ) → Machine → Machine
unfolding process_queue
process_rounds zero clock m = m
process_rounds (suc n) clock m = process_rounds n clock (process_queue (clock n) m)

next_message_taken :
    (n : NetworkLayer Handler) (msg : Message) (rest : List Message)
    → n.closed ≡ false
    → n.message_queue ≡ msg ∷ rest
    → ((next_message n).0.message_queue ≡ rest) × ((next_message n).0.closed ≡ false)
unfolding next_message
next_message_taken n msg rest is_open e = rw (next_message, is_open, e) (refl, is_open)

process_queue-network :
    (now : ℕ) (m : Machine) → (process_queue now m).network ≡ (next_message m.network).0
unfolding process_queue
process_queue-network now m = go (next_message m.network).1 refl
  where
    go :
        (next : Option (Message × Option Handler))
        → (next_message m.network).1 ≡ next
        → (process_queue now m).network ≡ (next_message m.network).0
    go none e = rw (process_queue, e) refl
    go (some (msg, none)) e = rw (process_queue, e) refl
    go (some (msg, some h)) e =
        rw (process_queue, e)
          (dispatch-network h msg now (record m { network = (next_message m.network).0 }))

-- As many rounds as messages wait empty the queue of a network layer that is not closed, whatever the
-- messages are and their handlers do.
pub process_rounds_drain :
    (n : ℕ) (clock : ℕ → ℕ) (m : Machine)
    → m.network.closed ≡ false
    → length m.network.message_queue ≡ n
    → (process_rounds n clock m).network.message_queue ≡ []
unfolding process_rounds
process_rounds_drain n clock m is_open counted = go n m m.network.message_queue refl is_open counted
  where
    go :
        (n : ℕ) (m : Machine) (q : List Message)
        → m.network.message_queue ≡ q
        → m.network.closed ≡ false
        → length q ≡ n
        → (process_rounds n clock m).network.message_queue ≡ []
    go zero m [] e o h = e
    go zero m (x ∷ q) e o h = absurd (omega arith)
    go (suc n) m [] e o h = absurd (omega arith)
    go (suc n) m (x ∷ q) e o h =
        let now = clock n in
        let (rest, still) = next_message_taken m.network x q o e in
        let same = process_queue-network now m in
        go n (process_queue now m) q (ap (λ l. l.message_queue) same ∙ rest)
          (ap (λ l. l.closed) same ∙ still) (omega arith)
