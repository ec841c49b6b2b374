-- ===== src/Queues/History.antt =====
-- Histories of a bounded queue: what was pushed is what was popped, dropped and still waits.
use mathlib.Core.List.{append-nil, append_assoc, map-append}
use palworld_pal_crosschat.Base.{
  ◌+◌, ◌%◌, ◌≤◌, ◌<◌, ◌≡◌, refl, sym, ap, ◌∙◌, Bool, true, false, Option, none, some, List, [], ◌∷◌,
  ◌++◌, map, arith, leb, if◌then◌else◌, length, take, filter_by, length-append,
}
use palworld_pal_crosschat.Queues.{
  BoundedQueue, u64_mod, drop_oldest, push, pop_deque, push_all, try_pop,
}

-- The calls that change a queue.
pub data Call {ℓ} (T : Type ℓ) : Type ℓ where
  pushes : T → Call T
  pops : Call T

-- What left the queue, oldest first, and how.
pub data Exit {ℓ} (T : Type ℓ) : Type ℓ where
  popped dropped : T → Exit T

pub push-room {ℓ} :
    {T : Type ℓ} (q : BoundedQueue T) (item : T)
    → length q.deque < q.max_size
    → (push q item).deque ≡ q.deque ++ item ∷ []
unfolding push
push-room q item h = ground arith

push-max_size {ℓ} :
    {T : Type ℓ} (q : BoundedQueue T) (item : T) → (push q item).max_size ≡ q.max_size
unfolding push drop_oldest
push-max_size q item = ground arith

-- Pushes for which there is room.
pub push_all-room {ℓ} :
    {T : Type ℓ} (items : List T) (q : BoundedQueue T)
    → length q.deque + length items ≤ q.max_size
    → ((push_all q items).deque ≡ q.deque ++ items) × ((push_all q items).max_size ≡ q.max_size)
push_all-room [] q h = (sym (append-nil q.deque), refl)
push_all-room (item ∷ items) q h =
    let e = push-room q item (omega arith) in
    let size = push-max_size q item in
    let (behind, same) =
      push_all-room items (push q item)
        (let len = ap length e ∙ length-append q.deque (item ∷ []) in omega arith) in
    (behind ∙ (ap (λ l. l ++ items) e ∙ append_assoc q.deque (item ∷ []) items), same ∙ size)

module _ {ℓ} {T : Type ℓ} where
  abbrev pub item_of : Exit T → T
  item_of (popped x) = x
  item_of (dropped x) = x

  -- The items that a push drops.
  abbrev pub pushed_out : BoundedQueue T → List (Exit T)
  pushed_out q = if leb q.max_size (length q.deque) then map dropped (take 1 q.deque) else []

  abbrev pub popped_out : Option T → List (Exit T)
  popped_out none = []
  popped_out (some x) = popped x ∷ []

  -- A history's final queue, with all that left it.
  abbrev pub run : BoundedQueue T → List (Call T) → BoundedQueue T × List (Exit T)
  run q [] = (q, [])
  run q (pushes x ∷ cs) = let (r, out) = run (push q x) cs in (r, pushed_out q ++ out)
  run q (pops ∷ cs) =
      let (x, q') = try_pop q in let (r, out) = run q' cs in (r, popped_out x ++ out)

  abbrev pub pushed : List (Call T) → List T
  pushed [] = []
  pushed (pushes x ∷ cs) = x ∷ pushed cs
  pushed (pops ∷ cs) = pushed cs

  abbrev pub is_dropped : Exit T → Bool
  is_dropped (popped _) = false
  is_dropped (dropped _) = true

  -- What the code relies on: room for one item, and never more than `max_size` items.
  pub record IsValid (q : BoundedQueue T) : Type ℓ where
    pub has_room : 0 < q.max_size
    pub bounded : length q.deque ≤ q.max_size
    pub no_wrap : q.drops < u64_mod

  push-IsValid : (q : BoundedQueue T) (x : T) → IsValid q → IsValid (push q x)
  unfolding push drop_oldest
  push-IsValid q x v = go q.deque refl
    where
      go : (d : List T) → q.deque ≡ d → IsValid (push q x)
      go [] e = record {
        has_room = ground (arith, v.has_room);
        bounded = ground (arith, v.has_room);
        no_wrap = ground (arith, v.no_wrap);
      }
      go (y ∷ d) e = record {
        has_room = ground (arith, v.has_room);
        bounded = ground (
          arith,
          v.has_room,
          v.bounded,
          length-append d (x ∷ []),
          length-append (y ∷ d) (x ∷ []),
        );
        no_wrap = ground (arith, v.no_wrap);
      }

  try_pop-IsValid : (q : BoundedQueue T) → IsValid q → IsValid (try_pop q).1
  unfolding try_pop pop_deque
  try_pop-IsValid q v = go q.deque refl
    where
      go : (d : List T) → q.deque ≡ d → IsValid (pop_deque q d).1
      go [] e = v
      go (y ∷ d) e = record {
        has_room = v.has_room;
        bounded = omega (arith, v.bounded, ap length e);
        no_wrap = v.no_wrap;
      }

  -- Every history keeps the queue within its limit.
  run-IsValid : (q : BoundedQueue T) (cs : List (Call T)) → IsValid q → IsValid (run q cs).0
  run-IsValid q [] v = v
  run-IsValid q (pushes x ∷ cs) v = run-IsValid (push q x) cs (push-IsValid q x v)
  run-IsValid q (pops ∷ cs) v = run-IsValid (try_pop q).1 cs (try_pop-IsValid q v)

  -- Each call keeps the items in order: what leaves comes off the front, what is pushed goes last.
  push_keeps :
      (q : BoundedQueue T) (x : T)
      → IsValid q
      → map item_of (pushed_out q) ++ (push q x).deque ≡ q.deque ++ x ∷ []
  unfolding push drop_oldest
  push_keeps q x v = go q.deque refl
    where
      go :
          (d : List T)
          → q.deque ≡ d
          → map item_of (pushed_out q) ++ (push q x).deque ≡ q.deque ++ x ∷ []
      go [] e = ground (arith, v.has_room)
      go (y ∷ d) e = ground arith

  try_pop_keeps :
      (q : BoundedQueue T) (d : List T)
      → q.deque ≡ d
      → map item_of (popped_out (pop_deque q d).0) ++ (pop_deque q d).1.deque ≡ d
  unfolding pop_deque
  try_pop_keeps q [] e = e
  try_pop_keeps q (y ∷ d) e = refl

  run-order :
      (q : BoundedQueue T) (cs : List (Call T))
      → IsValid q
      → map item_of (run q cs).1 ++ (run q cs).0.deque ≡ q.deque ++ pushed cs
  run-order q [] v = sym (append-nil q.deque)
  run-order q (pushes x ∷ cs) v =
      let out = pushed_out q in
      rw (map-append item_of out (run (push q x) cs).1, append_assoc)
        (ap (◌++◌ (map item_of out)) (run-order (push q x) cs (push-IsValid q x v))
          ∙ sym (append_assoc (map item_of out) (push q x).deque (pushed cs))
          ∙ ap (λ d. d ++ pushed cs) (push_keeps q x v)
          ∙ append_assoc q.deque (x ∷ []) (pushed cs))
  run-order q (pops ∷ cs) v =
      let out = popped_out (try_pop q).0 in
      let q' = (try_pop q).1 in
      rw (map-append item_of out (run q' cs).1, append_assoc)
        (ap (◌++◌ (map item_of out)) (run-order q' cs (try_pop-IsValid q v))
          ∙ sym (append_assoc (map item_of out) q'.deque (pushed cs))
          ∙ ap (λ d. d ++ pushed cs) (unfold try_pop in try_pop_keeps q q.deque refl))

  push_counts :
      (q : BoundedQueue T) (x : T) (out : List (Exit T)) (d : List T)
      → IsValid q
      → q.deque ≡ d
      → ((push q x).drops + length (filter_by is_dropped out)) % u64_mod
        ≡ (q.drops + length (filter_by is_dropped (pushed_out q ++ out))) % u64_mod
  unfolding push drop_oldest
  push_counts q x out [] v e = ground (arith, v.has_room)
  push_counts q x out (y ∷ d) v e = ground arith

  pop_counts :
      (q : BoundedQueue T) (out : List (Exit T)) (d : List T)
      → (pop_deque q d).1.drops + length (filter_by is_dropped out)
        ≡ q.drops + length (filter_by is_dropped (popped_out (pop_deque q d).0 ++ out))
  unfolding pop_deque
  pop_counts q out [] = refl
  pop_counts q out (y ∷ d) = refl

  -- The counter of drops counts the dropped items, modulo its width.
  drops-run :
      (q : BoundedQueue T) (cs : List (Call T))
      → IsValid q
      → (run q cs).0.drops ≡ (q.drops + length (filter_by is_dropped (run q cs).1)) % u64_mod
  drops-run q [] v = omega (arith, v.no_wrap)
  drops-run q (pushes x ∷ cs) v =
      drops-run (push q x) cs (push-IsValid q x v)
      ∙ push_counts q x (run (push q x) cs).1 q.deque v refl
  drops-run q (pops ∷ cs) v =
      let q' = (try_pop q).1 in
      drops-run q' cs (try_pop-IsValid q v)
      ∙ ap (λ n. n % u64_mod) (unfold try_pop in pop_counts q (run q' cs).1 q.deque)

  -- Over any history from a queue within its limit, the items that left it, popped or dropped, in the
  -- order in which they left, followed by those that still wait, are the items that were in it
  -- followed by those that were pushed, and the counter of drops has grown by the number of the dropped
  -- items, modulo 2 ^ 64: nothing is lost, doubled or reordered but by a counted drop.
  pub run_keeps :
      (q : BoundedQueue T) (cs : List (Call T))
      → IsValid q
      → (map item_of (run q cs).1 ++ (run q cs).0.deque ≡ q.deque ++ pushed cs)
        × ((run q cs).0.drops ≡ (q.drops + length (filter_by is_dropped (run q cs).1)) % u64_mod)
  run_keeps q cs v = (run-order q cs v, drops-run q cs v)
