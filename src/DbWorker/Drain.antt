-- ===== src/DbWorker/Drain.antt =====
-- The loop that turns the outbound queue into INSERTs.
use palworld_pal_crosschat.Base.{
  ℕ, zero, suc, ◌+◌, ◌<◌, ◌≡◌, refl, sym, ap, ◌∙◌, subst, ◌⊎◌, inl, inr, Bool, true, false, not,
  List, [], ◌∷◌, ◌++◌, map, arith, if_both, if_false, length, length-append,
}
use mathlib.Core.List.{append-nil}
use palworld_pal_crosschat.Config.Types.{Config}
use palworld_pal_crosschat.Queues.{OutboundMessage, push, push_all, try_pop, pop_deque}
use palworld_pal_crosschat.Queues.History.{push-room, push_all-room}
use palworld_pal_crosschat.DbWorker.Mysql.{Mysql, insert_message, Param, run_stmt}
use palworld_pal_crosschat.DbWorker.State.{
  inserting, sending, backing_off, DbWorker, mark_failure, insert_params, insert_outbound,
}
use palworld_pal_crosschat.DbWorker.Worker.{
  inserted, Outcome, fail, take_outbound, insert_step, send_step, step_at, step,
}
use palworld_pal_crosschat.DbWorker.Events.{Event, works, captures, event_step, run_events}

-- The thread alone for a number of steps, without a stop.
abbrev pub works_for : ℕ → ℕ → List Event
works_for zero now = []
works_for (suc n) now = works false now ∷ works_for n now

-- The same for a number of rounds of the loop over the outbound queue, of two steps each: a message is
-- taken out, and then inserted.
abbrev pub sends_for : ℕ → ℕ → List Event
sends_for zero now = []
sends_for (suc n) now = works false now ∷ works false now ∷ sends_for n now

-- Every INSERT succeeds.
abbrev pub Inserts : Mysql → Type 0
Inserts lib = (params : List Param) (d : lib.Db) → (run_stmt lib insert_message params d).0 ≡ true

module _ {lib : Mysql} (config : Config) where
  insert_outbound-queue :
      (m : OutboundMessage) (w : DbWorker lib)
      → (insert_outbound config m w).1.outbound ≡ w.outbound
  unfolding insert_outbound
  insert_outbound-queue m w = ground arith

  insert_outbound-done :
      (m : OutboundMessage) (w : DbWorker lib) → Inserts lib → (insert_outbound config m w).0 ≡ true
  unfolding insert_outbound
  insert_outbound-done m w h = let ran = h (insert_params config m) w.conn.db in ground arith

  -- The step at a message that stands in front.
  insert_step-cons :
      (w : DbWorker lib) (m : OutboundMessage) (ms : List OutboundMessage)
      → w.outbound.deque ≡ m ∷ ms
      → insert_step config w
        ≡ (record w { phase = sending m; outbound = record w.outbound { deque = ms } }, [])
  unfolding insert_step take_outbound try_pop pop_deque
  insert_step-cons w m ms e =
      ap (λ r. take_outbound config (record w { outbound = r.1 }) r.0) (ap (pop_deque w.outbound) e)

  -- The step of the thread there.
  step-cons :
      (now : ℕ) (w : DbWorker lib) (m : OutboundMessage) (ms : List OutboundMessage)
      → w.phase ≡ inserting
      → w.outbound.deque ≡ m ∷ ms
      → step config false now w
        ≡ (record w { phase = sending m; outbound = record w.outbound { deque = ms } }, [])
  unfolding step step_at
  step-cons now w m ms p e =
      ap (λ phase. step_at config phase false now w) p ∙ insert_step-cons w m ms e

  -- The INSERT, where it succeeds.
  send_step-done :
      (w : DbWorker lib) (m : OutboundMessage)
      → (insert_outbound config m w).0 ≡ true
      → send_step config m w
        ≡ (record (insert_outbound config m w).1 { phase = inserting }, inserted m ∷ [])
  unfolding send_step
  send_step-done w m e =
      if_false
        (λ o. o ≡ (record (insert_outbound config m w).1 { phase = inserting }, inserted m ∷ []))
        (not (insert_outbound config m w).0) _ _ (ground arith) refl

  -- One round of the loop, where the INSERT succeeds.
  abbrev IsInserted : OutboundMessage → List OutboundMessage → Outcome lib → Type 0
  IsInserted m ms (w, deeds) =
      (w.phase ≡ inserting) × (w.outbound.deque ≡ ms) × (deeds ≡ inserted m ∷ [])

  send_step-IsInserted :
      (w : DbWorker lib) (m : OutboundMessage)
      → Inserts lib
      → IsInserted m w.outbound.deque (send_step config m w)
  send_step-IsInserted w m h =
      subst (IsInserted m w.outbound.deque) (sym (send_step-done w m (insert_outbound-done m w h)))
        (refl, ap (λ q. q.deque) (insert_outbound-queue m w), refl)

  -- A run from there, past the first step.
  run-taken :
      (es : List Event) (now : ℕ) (w : DbWorker lib) (m : OutboundMessage)
      (ms : List OutboundMessage)
      → w.phase ≡ inserting
      → w.outbound.deque ≡ m ∷ ms
      → run_events config (works false now ∷ es) w
        ≡ run_events config es
            (record w { phase = sending m; outbound = record w.outbound { deque = ms } })
  unfolding run_events event_step
  run-taken es now w m ms p e =
      ap (λ o. ((run_events config es o.0).0, o.1 ++ (run_events config es o.0).1))
        (step-cons now w m ms p e)

  abbrev Drained : List OutboundMessage → Outcome lib → Type 0
  Drained ms (w, deeds) =
      (w.phase ≡ inserting) × (w.outbound.deque ≡ []) × (deeds ≡ map inserted ms)

  drains_from :
      (ms : List OutboundMessage) (now : ℕ) (w : DbWorker lib)
      → Inserts lib
      → w.phase ≡ inserting
      → w.outbound.deque ≡ ms
      → Drained ms (run_events config (sends_for (length ms) now) w)
  unfolding run_events event_step step step_at
  drains_from [] now w h p e = (p, e, refl)
  drains_from (m ∷ ms) now w h p e =
      let taken = record w { phase = sending m; outbound = record w.outbound { deque = ms } } in
      let (p1, e1, d) = send_step-IsInserted taken m h in
      let (p2, e2, d2) = drains_from ms now (send_step config m taken).0 h p1 e1 in
      subst (Drained (m ∷ ms))
        (sym (run-taken (works false now ∷ sends_for (length ms) now) now w m ms p e))
        (p2, e2, rw (d, d2) refl)

-- Where every INSERT succeeds, no stop is requested and the game's thread captures nothing meanwhile, the
-- loop empties the outbound queue in one round for each message, of two steps, inserts each of them once
-- and in the queue's order, and stands in the loop still.
pub run_events-drains :
    (lib : Mysql) (config : Config) (now : ℕ) (w : DbWorker lib)
    → Inserts lib
    → w.phase ≡ inserting
    → ((run_events config (sends_for (length w.outbound.deque) now) w).0.phase ≡ inserting)
      × ((run_events config (sends_for (length w.outbound.deque) now) w).0.outbound.deque ≡ [])
      × ((run_events config (sends_for (length w.outbound.deque) now) w).1
          ≡ map inserted w.outbound.deque)
run_events-drains lib config now w h p = drains_from config w.outbound.deque now w h p refl

-- The message was inserted and what is in the queue stays, or it stands behind that and the thread gives
-- up the connection.
abbrev pub IsKept : {lib : Mysql} → OutboundMessage → List OutboundMessage → Outcome lib → Type 0
IsKept m ms (w, deeds) =
    ((deeds ≡ inserted m ∷ []) × (w.outbound.deque ≡ ms))
    ⊎ ((deeds ≡ [])
        × (w.outbound.deque ≡ ms ++ m ∷ [])
        × (w.phase ≡ backing_off)
        × (w.cursor_ready ≡ false))

module _ {lib : Mysql} (config : Config) where
  fail-IsKept :
      (m : OutboundMessage) (ms : List OutboundMessage) (w : DbWorker lib)
      → w.outbound.deque ≡ ms ++ m ∷ []
      → IsKept m ms (fail config w)
  unfolding fail mark_failure
  fail-IsKept m ms w e = inr (refl, e, refl, refl)

  send_step-IsKept :
      (w : DbWorker lib) (m : OutboundMessage)
      → length w.outbound.deque < w.outbound.max_size
      → IsKept m w.outbound.deque (send_step config m w)
  unfolding send_step
  send_step-IsKept w m h =
      let (done, w') = insert_outbound config m w in
      let same = insert_outbound-queue config m w in
      if_both (IsKept m w.outbound.deque) (not done)
        (fail config (record w' { outbound = push w'.outbound m }))
        (record w' { phase = inserting }, inserted m ∷ [])
        (fail-IsKept m w.outbound.deque (record w' { outbound = push w'.outbound m })
          (rw same (push-room w.outbound m h)))
        (inl (refl, ap (λ q. q.deque) same))

  -- The captures between the two steps, and then the second one.
  captures-then :
      (arrivals : List OutboundMessage) (stop : Bool) (later : ℕ) (m : OutboundMessage)
      (w : DbWorker lib)
      → w.phase ≡ sending m
      → run_events config (map captures arrivals ++ works stop later ∷ []) w ≡ (
          let o = send_step config m (record w { outbound = push_all w.outbound arrivals }) in
          (o.0, o.1 ++ []))
  unfolding run_events event_step step step_at
  captures-then [] stop later m w p =
      ap (λ phase. let o = step_at config phase stop later w in (o.0, o.1 ++ [])) p
  captures-then (a ∷ arrivals) stop later m w p =
      captures-then arrivals stop later m (record w { outbound = push w.outbound a }) p

-- A message that the loop takes out of the outbound queue is not lost, and no other is, whether the
-- database takes the INSERT or not and whatever the game's thread captures between the taking and the end
-- of the INSERT, where the queue has room for the captured messages and for that one: it is inserted and
-- the queue has the others and then the captured ones, or it stands behind all these, and the thread
-- gives up the connection and waits. A stop that is requested meanwhile does not matter.
pub insert_step-IsKept :
    (lib : Mysql) (config : Config) (now later : ℕ) (stop : Bool) (w : DbWorker lib)
    (m : OutboundMessage) (ms arrivals : List OutboundMessage)
    → w.phase ≡ inserting
    → w.outbound.deque ≡ m ∷ ms
    → length ms + length arrivals < w.outbound.max_size
    → IsKept m
        (ms ++ arrivals)
        (run_events config (works false now ∷ map captures arrivals ++ works stop later ∷ []) w)
insert_step-IsKept lib config now later stop w m ms arrivals p e h =
    let taken = record w { phase = sending m; outbound = record w.outbound { deque = ms } } in
    let (behind, size) = push_all-room arrivals taken.outbound (omega arith) in
    let late = record taken { outbound = push_all taken.outbound arrivals } in
    let kept =
      send_step-IsKept config late m
        (let len = ap length behind ∙ length-append ms arrivals in omega arith) in
    subst (IsKept m (ms ++ arrivals))
      (sym (
        run-taken config (map captures arrivals ++ works stop later ∷ []) now w m ms p e
        ∙ captures-then config arrivals stop later m taken refl))
      (rw append-nil (subst (λ l. IsKept m l (send_step config m late)) behind kept))
