-- ===== src/DbWorker/Aligned.antt =====
-- How the cursor and the deeds go together where the thread stands, and the steps before the poll.
use palworld_pal_crosschat.Base.{
  ◌≡◌, refl, sym, ◌∙◌, Bool, true, false, not, Option, none, some, [], ◌∷◌, arith, if◌then◌else◌,
  if_both, ℤ,
}
use palworld_pal_crosschat.Config.Types.{Config}
use palworld_pal_crosschat.Queues.{OutboundMessage, LinkJob, push}
use palworld_pal_crosschat.DbWorker.Mysql.{Mysql}
use palworld_pal_crosschat.DbWorker.State.{
  Phase, at_top, linking, inserting, polling, idling, backing_off, stopped, overread, sending,
  fetching, DbWorker, ensure_connected, mark_failure, init_cursor, insert_outbound,
}
use palworld_pal_crosschat.DbWorker.Worker.{
  inserted, restarted, Outcome, goes, fail, start_round, top_step, link_with, take_outbound,
  send_step,
}
use palworld_pal_crosschat.DbWorker.Fresh.{IsSelected, IsFresh, last_id}

module _ {lib : Mysql} (config : Config) where
  -- What the walk through the deeds has to do with the cursor, where the thread stands at a phase.
  abbrev pub IsAlignedAt : Phase → ℤ → DbWorker lib → Type 0
  IsAlignedAt at_top last w = w.cursor_ready ≡ true → w.cursor_id ≡ last
  IsAlignedAt idling last w = w.cursor_ready ≡ true → w.cursor_id ≡ last
  IsAlignedAt backing_off last w = w.cursor_ready ≡ true → w.cursor_id ≡ last
  IsAlignedAt stopped last w = Unit
  IsAlignedAt overread last w = Unit
  IsAlignedAt linking last w = w.cursor_id ≡ last
  IsAlignedAt inserting last w = w.cursor_id ≡ last
  IsAlignedAt (sending _) last w = w.cursor_id ≡ last
  IsAlignedAt polling last w = w.cursor_id ≡ last
  IsAlignedAt (fetching _ rows) last w =
      (w.cursor_id ≡ last) × IsSelected config.server_origin last rows

  abbrev pub IsAligned : ℤ → DbWorker lib → Type 0
  IsAligned last w = IsAlignedAt w.phase last w

  abbrev pub IsFreshOutcome : ℤ → Outcome lib → Type 0
  IsFreshOutcome last (w, deeds) =
      IsFresh config.server_origin last deeds × IsAligned (last_id last deeds) w

  -- Neither the queues nor the statistics matter.
  pub IsAlignedAt-same :
      (phase : Phase) (last : ℤ) (w w' : DbWorker lib)
      → w'.cursor_id ≡ w.cursor_id
      → w'.cursor_ready ≡ w.cursor_ready
      → IsAlignedAt phase last w
      → IsAlignedAt phase last w'
  IsAlignedAt-same at_top last w w' e f h = λ r. e ∙ h (sym f ∙ r)
  IsAlignedAt-same idling last w w' e f h = λ r. e ∙ h (sym f ∙ r)
  IsAlignedAt-same backing_off last w w' e f h = λ r. e ∙ h (sym f ∙ r)
  IsAlignedAt-same stopped last w w' e f h = tt
  IsAlignedAt-same overread last w w' e f h = tt
  IsAlignedAt-same linking last w w' e f h = e ∙ h
  IsAlignedAt-same inserting last w w' e f h = e ∙ h
  IsAlignedAt-same (sending _) last w w' e f h = e ∙ h
  IsAlignedAt-same polling last w w' e f h = e ∙ h
  IsAlignedAt-same (fetching _ rows) last w w' e f h = (e ∙ h.0, h.1)

  ensure_connected-cursor :
      (w : DbWorker lib)
      → ((ensure_connected config w).1.cursor_id ≡ w.cursor_id)
        × ((ensure_connected config w).1.cursor_ready ≡ true → w.cursor_ready ≡ true)
  unfolding ensure_connected
  ensure_connected-cursor w = ground arith

  pub fail-IsFresh : (last : ℤ) (w : DbWorker lib) → IsFreshOutcome last (fail config w)
  unfolding fail mark_failure
  fail-IsFresh last w = (tt, λ r. cc)

  restart-IsFresh :
      (last : ℤ) (r : Bool × DbWorker lib)
      → IsFreshOutcome last (
          if not r.0
          then fail config r.1
          else (record r.1 { phase = linking }, restarted r.1.cursor_id ∷ []))
  restart-IsFresh last (true, w) = (tt, refl)
  restart-IsFresh last (false, w) = fail-IsFresh last w

  start-IsFresh :
      (last : ℤ) (w : DbWorker lib) (b : Bool) (o : Outcome lib)
      → (b ≡ true → w.cursor_id ≡ last)
      → IsFreshOutcome last o
      → IsFreshOutcome last (if b then goes config linking w else o)
  start-IsFresh last w true o h k = (tt, h refl)
  start-IsFresh last w false o h k = k

  start_round-IsFresh :
      (last : ℤ) (w : DbWorker lib)
      → (w.cursor_ready ≡ true → w.cursor_id ≡ last)
      → IsFreshOutcome last (start_round config w)
  unfolding start_round
  start_round-IsFresh last w h =
      start-IsFresh last w w.cursor_ready _ h (restart-IsFresh last (init_cursor config w))

  pub top_step-IsFresh :
      (last : ℤ) (w : DbWorker lib)
      → (w.cursor_ready ≡ true → w.cursor_id ≡ last)
      → IsFreshOutcome last (top_step config w)
  unfolding top_step
  top_step-IsFresh last w h =
      let (joined, w') = ensure_connected config w in
      let (e, r) = ensure_connected-cursor w in
      let aligned : w'.cursor_ready ≡ true → w'.cursor_id ≡ last = λ ready. e ∙ h (r ready) in
      if_both (IsFreshOutcome last) (not joined) (goes config backing_off w')
        (start_round config w') (tt, aligned) (start_round-IsFresh last w' aligned)

  insert_outbound-cursor :
      (m : OutboundMessage) (w : DbWorker lib)
      → (insert_outbound config m w).1.cursor_id ≡ w.cursor_id
  unfolding insert_outbound
  insert_outbound-cursor m w = ground arith

  pub take_outbound-IsFresh :
      (last : ℤ) (w : DbWorker lib) (m : Option OutboundMessage)
      → w.cursor_id ≡ last
      → IsFreshOutcome last (take_outbound config w m)
  unfolding take_outbound
  take_outbound-IsFresh last w none e = (tt, e)
  take_outbound-IsFresh last w (some m) e = (tt, e)

  pub send_step-IsFresh :
      (last : ℤ) (m : OutboundMessage) (w : DbWorker lib)
      → w.cursor_id ≡ last
      → IsFreshOutcome last (send_step config m w)
  unfolding send_step
  send_step-IsFresh last m w e =
      let (done, w') = insert_outbound config m w in
      if_both (IsFreshOutcome last) (not done) _ (record w' { phase = inserting }, inserted m ∷ [])
        (fail-IsFresh last (record w' { outbound = push w'.outbound m }))
        (tt, insert_outbound-cursor m w ∙ e)

  pub link_with-IsFresh :
      (last : ℤ) (w : DbWorker lib) (job : Option LinkJob)
      → w.phase ≡ linking
      → w.cursor_id ≡ last
      → IsFreshOutcome last (link_with config w job)
  unfolding link_with
  link_with-IsFresh last w none p e = (tt, e)
  link_with-IsFresh last w (some job) p e = (tt, rw p e)
