-- ===== src/Queues.antt =====
-- src/Queues.h: the messages that cross the threads, and the bounded queue that carries them. A method
-- runs under the queue's mutex, so each is one step from a queue to a queue.
pub mod History
use palworld_pal_crosschat.Base.{
  ℕ, ◌+◌, ◌-◌, ◌/◌, ◌%◌, ◌^◌, not, Option, none, some, List, [], ◌∷◌, ◌++◌, leb, if◌then◌else◌,
  length, Bytes, ℤ,
}

pub record OutboundMessage : Type 0 where
  pub sender_name : Bytes
  pub sender_id : Bytes
  pub guild_name : Bytes
  pub message : Bytes

pub record InboundMessage : Type 0 where
  pub id : ℤ
  pub origin : Bytes
  pub sender_name : Bytes
  pub sender_id : Bytes
  pub guild_name : Bytes
  pub message : Bytes

pub record WebhookJob : Type 0 where
  pub webhook_url : Bytes
  pub content : Bytes

pub record LinkJob : Type 0 where
  pub connect_code : Bytes
  pub platform : Bytes
  pub user_id : Bytes
  pub platform_user_id : Bytes
  pub player_name : Bytes

pub record LinkResult : Type 0 where
  pub notice : Bytes
  pub platform_user_id : Bytes

pub record BoundedQueue {ℓ} (T : Type ℓ) : Type ℓ where
  pub deque : List T
  pub max_size : ℕ
  pub drops : ℕ

-- `pop_front`, which the code calls on a deque that is not empty.
abbrev pub pop_front {ℓ} : {T : Type ℓ} → List T → List T
pop_front [] = []
pop_front (_ ∷ xs) = xs

-- `m_drops` is a uint64_t.
abbrev pub u64_mod : ℕ
u64_mod = 2 ^ 64

module _ {ℓ} {T : Type ℓ} where
  abbrev pub empty_queue : ℕ → BoundedQueue T
  empty_queue max_size = record { deque = []; max_size = max_size; drops = 0 }

  -- `size() >= m_max`: the oldest item goes.
  unfoldable pub drop_oldest : BoundedQueue T → BoundedQueue T
  drop_oldest q = record q { deque = pop_front q.deque; drops = (q.drops + 1) % u64_mod }

  unfoldable pub push : BoundedQueue T → T → BoundedQueue T
  unfolding drop_oldest
  push q item =
      let room = if leb q.max_size (length q.deque) then drop_oldest q else q in
      record room { deque = room.deque ++ item ∷ [] }

  -- Several pushes, one behind the other.
  abbrev pub push_all : BoundedQueue T → List T → BoundedQueue T
  push_all q [] = q
  push_all q (item ∷ items) = push_all (push q item) items

  unfoldable pub pop_deque : BoundedQueue T → List T → Option T × BoundedQueue T
  pop_deque q [] = (none, q)
  pop_deque q (x ∷ xs) = (some x, record q { deque = xs })

  unfoldable pub try_pop : BoundedQueue T → Option T × BoundedQueue T
  unfolding pop_deque
  try_pop q = pop_deque q q.deque

  unfoldable pub queue_size : BoundedQueue T → ℕ
  queue_size q = length q.deque

  unfoldable pub drop_count : BoundedQueue T → ℕ
  drop_count q = q.drops

abbrev pub queue_max : ℕ
queue_max = 500
