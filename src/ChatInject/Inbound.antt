-- ===== src/ChatInject/Inbound.antt =====
-- The loop of `Drain` over the inbound queue, against plain lists of messages.
use palworld_pal_crosschat.Base.{
  ℕ, zero, suc, ◌+◌, ◌≤◌, ◌<◌, ◌≡◌, refl, sym, ap, ◌∙◌, subst, Bool, true, false, Option, List, [],
  ◌∷◌, ◌++◌, arith, length, length-append,
}
use palworld_pal_crosschat.Config.Types.{Config}
use palworld_pal_crosschat.Queues.{InboundMessage, BoundedQueue, push_all, pop_deque, try_pop}
use palworld_pal_crosschat.Queues.History.{push-room, push_all-room}
use palworld_pal_crosschat.WordFilter.{RegexLib, WordFilter}
use palworld_pal_crosschat.ChatInject.Game.{Game, Session}
use palworld_pal_crosschat.ChatInject.Lines.{broadcast_one}
use palworld_pal_crosschat.ChatInject.Drain.{after_line, show_popped, drain_inbound}

-- All that arrives in `n` rounds.
abbrev pub total : (ℕ → List InboundMessage) → ℕ → ℕ
total arrivals zero = 0
total arrivals (suc n) = length (arrivals n) + total arrivals n

module _ (game : Game) (config : Config) (lib : RegexLib) (filter : Option (WordFilter lib))
    (arrivals : ℕ → List InboundMessage) where
  -- What at most `n` rounds may make of the messages that wait: a message that BroadcastOne accepts leaves
  -- at the front, what arrives in a round goes to the end, and the first message that BroadcastOne does
  -- not accept goes behind that and ends the loop.
  pub data Drains
      : ℕ → List InboundMessage → Session game → List InboundMessage → Session game → Type 0 where
    used_up : {ms : List InboundMessage} {s : Session game} → Drains 0 ms s ms s
    drained : {n : ℕ} {s : Session game} → Drains (suc n) [] s [] s
    accepts :
        {n : ℕ} {m : InboundMessage} {ms ms' : List InboundMessage} {s s1 s' : Session game}
        → broadcast_one game lib config filter m s ≡ (true, s1)
        → Drains n (ms ++ arrivals n) s1 ms' s'
        → Drains (suc n) (m ∷ ms) s ms' s'
    puts_back :
        {n : ℕ} {m : InboundMessage} {ms : List InboundMessage} {s s1 : Session game}
        → broadcast_one game lib config filter m s ≡ (false, s1)
        → Drains (suc n) (m ∷ ms) s ((ms ++ arrivals n) ++ m ∷ []) s1

  abbrev DrainsTo :
      ℕ → List InboundMessage → Session game → BoundedQueue InboundMessage × Session game → Type 0
  DrainsTo n ms s (rest, s') = Drains n ms s rest.deque s'

  -- A round from what broadcast_one answered.
  abbrev go_on :
      ℕ
      → BoundedQueue InboundMessage
      → InboundMessage
      → Bool × Session game
      → BoundedQueue InboundMessage × Session game
  go_on n inbound m r =
      let (again, (rest, s1)) = after_line game config inbound m r in
      elim again [
        | false ↦ (rest, s1)
        | true ↦ drain_inbound game config lib filter arrivals n rest s1
      ]

  -- A round, from what holds of the rounds behind it.
  go_on-Drains :
      (n : ℕ) (inbound : BoundedQueue InboundMessage) (m : InboundMessage)
      (ms : List InboundMessage) (s : Session game)
      → inbound.deque ≡ ms ++ arrivals n
      → length inbound.deque < inbound.max_size
      → ((s1 : Session game)
          → DrainsTo n inbound.deque s1
              (drain_inbound game config lib filter arrivals n inbound s1))
      → (r : Bool × Session game) → broadcast_one game lib config filter m s ≡ r
      → DrainsTo (suc n) (m ∷ ms) s (go_on n inbound m r)
  unfolding after_line
  go_on-Drains n inbound m ms s behind room later (true, s1) e = accepts e (
      subst (λ l. DrainsTo n l s1 (drain_inbound game config lib filter arrivals n inbound s1))
        behind (later s1))
  go_on-Drains n inbound m ms s behind room later (false, s1) e =
      subst (λ rest. Drains (suc n) (m ∷ ms) s rest s1)
        (sym (push-room inbound m room ∙ ap (λ l. l ++ m ∷ []) behind)) (puts_back e)

  -- The loop, from what the first pop gave.
  abbrev first_round :
      ℕ
      → Session game
      → Option InboundMessage × BoundedQueue InboundMessage
      → BoundedQueue InboundMessage × Session game
  first_round n s r =
      let (again, (rest, s1)) = show_popped game config lib filter (arrivals n) r s in
      elim again [
        | false ↦ (rest, s1)
        | true ↦ drain_inbound game config lib filter arrivals n rest s1
      ]

  drain_inbound-pop :
      (n : ℕ) (ms : List InboundMessage) (inbound : BoundedQueue InboundMessage) (s : Session game)
      → inbound.deque ≡ ms
      → drain_inbound game config lib filter arrivals (suc n) inbound s
        ≡ first_round n s (pop_deque inbound ms)
  unfolding drain_inbound try_pop
  drain_inbound-pop n ms inbound s e = ap (λ d. first_round n s (pop_deque inbound d)) e

  drain_inbound-from :
      (n : ℕ) (ms : List InboundMessage) (inbound : BoundedQueue InboundMessage) (s : Session game)
      → inbound.deque ≡ ms
      → length ms + total arrivals n ≤ inbound.max_size
      → DrainsTo n ms s (drain_inbound game config lib filter arrivals n inbound s)
  unfolding drain_inbound show_popped pop_deque
  drain_inbound-from zero ms inbound s e fits = subst (λ l. Drains 0 ms s l s) (sym e) used_up
  drain_inbound-from (suc n) [] inbound s e fits =
      subst (DrainsTo (suc n) [] s) (sym (drain_inbound-pop n [] inbound s e))
        (subst (λ l. Drains (suc n) [] s l s) (sym e) drained)
  drain_inbound-from (suc n) (m ∷ ms) inbound s e fits =
      let popped = record inbound { deque = ms } in
      let (behind, size) = push_all-room (arrivals n) popped (omega arith) in
      let later = push_all popped (arrivals n) in
      let many = ap length behind ∙ length-append ms (arrivals n) in
      subst (DrainsTo (suc n) (m ∷ ms) s) (sym (drain_inbound-pop n (m ∷ ms) inbound s e)) (
        go_on-Drains n later m ms s behind (omega arith)
          (λ s1. drain_inbound-from n later.deque later s1 refl (omega arith))
          (broadcast_one game lib config filter m s) refl)

  Drains-length :
      {n : ℕ} {ms ms' : List InboundMessage} {s s' : Session game}
      → Drains n ms s ms' s'
      → length ms ≤ length ms' + n
  Drains-length used_up = omega arith
  Drains-length drained = omega arith
  Drains-length (accepts {n = n} {ms = ms} e d) =
      ground (arith, Drains-length d, length-append ms (arrivals n))
  Drains-length (puts_back {n = n} {m = m} {ms} e) =
      ground (arith, length-append (ms ++ arrivals n) (m ∷ []), length-append ms (arrivals n))

-- On an inbound queue with room for what the database thread pushes during the loop, the loop of at most
-- `n` rounds takes messages from the front in their order, as long as BroadcastOne accepts them, which it
-- also does with those that it filters and with those that nobody is there to see; the first that it
-- does not accept goes behind all the others, and the loop ends. What arrives meanwhile goes to the end in
-- its order. Nothing else changes in the queue, and at most `n` messages leave it.
pub drain_inbound-Drains :
    (game : Game) (config : Config) (lib : RegexLib) (filter : Option (WordFilter lib))
    (arrivals : ℕ → List InboundMessage) (n : ℕ) (inbound : BoundedQueue InboundMessage)
    (s : Session game)
    → length inbound.deque + total arrivals n ≤ inbound.max_size
    → let (rest, s') = drain_inbound game config lib filter arrivals n inbound s in
      Drains game config lib filter arrivals n inbound.deque s rest.deque s'
      × (length inbound.deque ≤ length rest.deque + n)
drain_inbound-Drains game config lib filter arrivals n inbound s fits =
    let d =
      drain_inbound-from game config lib filter arrivals n inbound.deque inbound s refl fits in
    (d, Drains-length game config lib filter arrivals d)
