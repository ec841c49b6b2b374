-- ===== src/PalCrosschat/Linked.antt =====
-- A request to link an account, from its job to the answer that the player gets.
use palworld_pal_crosschat.Base.{
  ℕ, ◌+◌, ◌≤◌, ◌<◌, ◌≡◌, refl, sym, ap, ◌∙◌, subst, false, none, some, List, [], ◌∷◌, ◌++◌, arith,
  length, is_empty, Bytes, str_eq_refl, lookup, lookup-erase,
}
use palworld_pal_crosschat.Guid.{nil_guid, guid_eq}
use palworld_pal_crosschat.Engine.{WeakGet, Controller}
use palworld_pal_crosschat.ChatApi.{chat_category_global}
use palworld_pal_crosschat.Config.Types.{Config}
use palworld_pal_crosschat.Queues.{LinkJob, LinkResult, BoundedQueue}
use palworld_pal_crosschat.WordFilter.{RegexLib}
use palworld_pal_crosschat.ChatInject.{
  ChatInject, default_action, private_chat, defer, enqueue_private_chat,
}
use palworld_pal_crosschat.ChatCapture.State.{ChatCapture, LinkClient}
use palworld_pal_crosschat.ChatCapture.Deferred.{answer, deliver_link_result}
use palworld_pal_crosschat.DbWorker.Mysql.{Mysql}
use palworld_pal_crosschat.DbWorker.State.{linking, DbWorker}
use palworld_pal_crosschat.DbWorker.Worker.{Deed, answered}
use palworld_pal_crosschat.DbWorker.Events.{run_events}
use palworld_pal_crosschat.DbWorker.Drain.{works_for}
use palworld_pal_crosschat.DbWorker.Answers.{AnswersEach, answers_from}
use palworld_pal_crosschat.PalCrosschat.{deliver_from}

-- ChatInject with a private line of chat for the player behind what waits.
abbrev pub with_notice : LinkClient → Bytes → ChatInject → ChatInject
with_notice client notice i = defer i (record default_action {
  kind = private_chat;
  message = notice;
  receivers = client.player_uid ∷ [];
  category = chat_category_global;
})

answer-with_notice :
    (controllers : ℕ → WeakGet Controller) (client : LinkClient) (notice : Bytes) (i : ChatInject)
    → guid_eq client.player_uid nil_guid ≡ false
    → is_empty notice ≡ false
    → answer (some client) notice controllers i ≡ with_notice client notice i
unfolding enqueue_private_chat
answer-with_notice controllers client notice i known full = rw (known, full) refl

module _ {lib : RegexLib} (controllers : ℕ → WeakGet Controller) where
  deliver_link_result-with_notice :
      (c : ChatCapture lib) (result : LinkResult) (client : LinkClient) (i : ChatInject)
      → is_empty result.notice ≡ false
      → is_empty result.platform_user_id ≡ false
      → lookup result.platform_user_id c.link_clients ≡ some client
      → guid_eq client.player_uid nil_guid ≡ false
      → c.inject ≡ some i
      → ((deliver_link_result controllers c result).inject
          ≡ some (with_notice client result.notice i))
        × (lookup result.platform_user_id (deliver_link_result controllers c result).link_clients
            ≡ none)
  unfolding deliver_link_result
  deliver_link_result-with_notice c result client i full named at known has =
      rw (full, named)
        (
          rw (at, has) (ap some (answer-with_notice controllers client result.notice i known full)),
          rw
              (
                lookup-erase result.platform_user_id result.platform_user_id c.link_clients,
                str_eq_refl result.platform_user_id,
              )
              refl,
        )

-- One job has one result.
only_answer :
    (job : LinkJob) (deeds : List Deed) (results : List LinkResult)
    → AnswersEach (job ∷ []) deeds results
    → (result : LinkResult) × (results ≡ result ∷ [])
      × (deeds ≡ answered job result.notice ∷ [])
      × (is_empty result.notice ≡ false)
      × (result.platform_user_id ≡ job.platform_user_id)
only_answer job (deed ∷ []) (result ∷ []) ((d, full, own), _) =
    (result, refl, ap (λ x. x ∷ []) d, full, own)
only_answer job [] results each = cc
only_answer job (_ ∷ deeds) [] each = cc
only_answer job (_ ∷ []) (_ ∷ _ ∷ _) each = cc
only_answer job (_ ∷ _ ∷ _) (_ ∷ []) each = cc
only_answer job (_ ∷ _ ∷ _) (_ ∷ _ ∷ _) each = cc

-- The job was answered by a notice, the notice is deferred as a private line, and no client waits for it.
abbrev pub IsDeferred :
    {lib : RegexLib}
    → LinkJob
    → LinkClient
    → ChatInject
    → List Deed
    → ChatCapture lib × BoundedQueue LinkResult
    → Type 0
IsDeferred job client i deeds (c, q) =
    (notice : Bytes) × (deeds ≡ answered job notice ∷ [])
    × (is_empty notice ≡ false)
    × (c.inject ≡ some (with_notice client notice i))
    × (lookup job.platform_user_id c.link_clients ≡ none)
    × (q.deque ≡ [])

-- The answer to a request for a link by a known client, whatever the database does: where the request is
-- the only job when the database thread is at its loop over the jobs, no result waits, the queue of
-- results has room, and no stop and no other event comes in between, one round of the loop makes one
-- notice that is not empty, and the delivery of the results appends it to ChatInject's bounded queue of
-- deferred actions, as a private line for this player alone; whether that action is carried out later is
-- not part of this. The client is forgotten, so that the notice is deferred once.
pub answered_job-IsDeferred :
    {lib : RegexLib} (controllers : ℕ → WeakGet Controller) (config : Config) (now : ℕ)
    (c : ChatCapture lib) (i : ChatInject) (client : LinkClient) {mysql : Mysql}
    (w : DbWorker mysql) (job : LinkJob) (q : BoundedQueue LinkResult)
    → c.inject ≡ some i
    → lookup job.platform_user_id c.link_clients ≡ some client
    → guid_eq client.player_uid nil_guid ≡ false
    → is_empty job.platform_user_id ≡ false
    → w.phase ≡ linking
    → w.link_jobs.deque ≡ job ∷ []
    → w.link_results.deque ≡ []
    → 0 < w.link_results.max_size
    → q ≡ (run_events config (works_for 1 now) w).0.link_results
    → IsDeferred job client i
        (run_events config (works_for 1 now) w).1
        (deliver_from controllers q.deque q c)
unfolding deliver_from
answered_job-IsDeferred controllers config now c i client w job q has at known named p e none_yet
      room same =
    let fits : length w.link_results.deque + 1 ≤ w.link_results.max_size =
      (let nothing : length w.link_results.deque ≡ 0 = ap length none_yet in omega arith) in
    let (p1, e1, (results, added, each)) = answers_from config (job ∷ []) now w p e fits in
    let (result, only, deed, full, own) = only_answer job _ results each in
    let holds : q.deque ≡ result ∷ [] =
      ap (λ r. r.deque) same ∙ (added ∙ (ap (λ l. l ++ results) none_yet ∙ only)) in
    let (put, gone) =
      deliver_link_result-with_notice controllers c result client i full (ap is_empty own ∙ named)
        (ap (λ k. lookup k c.link_clients) own ∙ at) known has in
    subst
      (λ l.
        IsDeferred job client i (run_events config (works_for 1 now) w).1
          (deliver_from controllers l q c))
      (sym holds)
      (
        result.notice,
        deed,
        full,
        put,
        subst (λ k. lookup k (deliver_link_result controllers c result).link_clients ≡ none) own
            gone,
        refl,
      )
