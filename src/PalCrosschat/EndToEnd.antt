-- ===== src/PalCrosschat/EndToEnd.antt =====
-- The way of a line of chat from ChatCapture's deferred relays to the database, over the update of the
-- mod and the loop of the database thread.
use palworld_pal_crosschat.Base.{
  ℕ, suc, ◌+◌, ◌≤◌, ◌≡◌, refl, sym, ap, ◌∙◌, List, [], ◌∷◌, ◌++◌, map, arith, length,
}
use palworld_pal_crosschat.Engine.{WeakGet, Controller}
use palworld_pal_crosschat.Config.Types.{Config}
use palworld_pal_crosschat.Queues.{InboundMessage, OutboundMessage}
use palworld_pal_crosschat.WordFilter.{RegexLib}
use palworld_pal_crosschat.ChatInject.Game.{Game}
use palworld_pal_crosschat.ChatCapture.State.{PendingChatRelay}
use palworld_pal_crosschat.ChatCapture.Delivery.{CarriesEach}
use palworld_pal_crosschat.DbWorker.Mysql.{Mysql}
use palworld_pal_crosschat.DbWorker.State.{DbWorker, inserting}
use palworld_pal_crosschat.DbWorker.Worker.{inserted}
use palworld_pal_crosschat.DbWorker.Events.{run_events}
use palworld_pal_crosschat.Queues.History.{push_all-room}
use palworld_pal_crosschat.DbWorker.Drain.{sends_for, Inserts, run_events-drains}
use palworld_pal_crosschat.PalCrosschat.{Mod, on_update}
use palworld_pal_crosschat.PalCrosschat.Update.{on_update-IsFlushed}

CarriesEach-length :
    (items : List PendingChatRelay) (ms : List OutboundMessage)
    → CarriesEach items ms
    → length ms ≡ length items
CarriesEach-length [] [] c = refl
CarriesEach-length (p ∷ items) (m ∷ ms) c = ap suc (CarriesEach-length items ms c.1)
CarriesEach-length [] (m ∷ ms) c = absurd c
CarriesEach-length (p ∷ items) [] c = absurd c

-- Every line that waits to be relayed when an update begins is inserted into the database, once and in
-- order, with its text, guild and sender id and with a name, where the outbound queue is empty and has
-- room for all of them, and the loop over that queue then runs with nothing else in between, without a
-- stop and with every INSERT taken.
pub relays_get_inserted :
    (lib : RegexLib) (game : Game) (config : Config) (now : ℕ) (arrivals : ℕ → List InboundMessage)
    (controllers : ℕ → WeakGet Controller) (m : Mod lib game) (mysql : Mysql) (w : DbWorker mysql)
    → m.capture.outbound.deque ≡ []
    → length m.capture.pending_chat_relays ≤ m.capture.outbound.max_size
    → w.outbound ≡ (on_update lib game config now arrivals controllers m).capture.outbound
    → w.phase ≡ inserting
    → Inserts mysql
    → (ms : List OutboundMessage) × CarriesEach m.capture.pending_chat_relays ms
      × ((run_events config (sends_for (length m.capture.pending_chat_relays) now) w).1
          ≡ map inserted ms)
relays_get_inserted lib game config now arrivals controllers m mysql w empty room same at inserts =
    let ((_, _, (ms, pushed, carries)), _) =
      on_update-IsFlushed lib game config now arrivals controllers m in
    let count = CarriesEach-length m.capture.pending_chat_relays ms carries in
    let fits : length m.capture.outbound.deque + length ms ≤ m.capture.outbound.max_size =
      (let none_yet : length m.capture.outbound.deque ≡ 0 = ap length empty in omega arith) in
    let holds : w.outbound.deque ≡ ms =
      ap (λ q. q.deque) (same ∙ pushed)
      ∙ ((push_all-room ms m.capture.outbound fits).0 ∙ ap (λ l. l ++ ms) empty) in
    let (_, _, deeds) = run_events-drains mysql config now w inserts at in
    let as_many : length m.capture.pending_chat_relays ≡ length w.outbound.deque =
      sym count ∙ ap length (sym holds) in
    (
      ms,
      carries,
      ap (λ n. (run_events config (sends_for n now) w).1) as_many
          ∙ (deeds ∙ ap (map inserted) holds),
    )
