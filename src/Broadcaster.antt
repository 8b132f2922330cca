-- ===== src/Broadcaster.antt =====
-- backend/app/services/event_broadcaster.py: one poll of the events for all websockets, and a queue
-- of one place for each of them.
--
-- A queue is known by the number it was created with. The lock of `start` and `stop` makes each of
-- them one step; the polled values are arguments, and `none` is an exception.
pub mod Delivery
pub mod Clients
use open_sec_dash.Prelude.{
  ℕ, ◌+◌, Bool, true, false, not, ◌&&◌, Option, none, some, List, [], ◌∷◌, ◌++◌, ◌==◌, nat_eq,
  length, ltb, if◌then◌else◌, select,
}

pub record EventPollState : Type 0 where
  pub enabled : Bool
  pub last_event_id : ℕ

abbrev pub same_flag : Bool → Bool → Bool
same_flag true b = b
same_flag false b = not b

-- `==` of the frozen dataclass
abbrev pub same_state : EventPollState → EventPollState → Bool
same_state s t = same_flag s.enabled t.enabled && s.last_event_id == t.last_event_id

abbrev pub Queue : Type 0
Queue = List EventPollState

-- maxsize
abbrev pub maxsize : ℕ
maxsize = 1

abbrev pub is_full : Queue → Bool
is_full queue = not (ltb (length queue) maxsize)

-- `none` is QueueEmpty.
unfoldable pub get_nowait : Queue → Option (EventPollState × Queue)
get_nowait [] = none
get_nowait (s ∷ queue) = some (s, queue)

-- `none` is QueueFull.
unfoldable pub put_nowait : Queue → EventPollState → Option Queue
put_nowait queue s = if is_full queue then none else some (queue ++ s ∷ [])

pub record EventBroadcaster : Type 0 where
  pub state : EventPollState
  pub ready : Bool
  pub subscribers : List (ℕ × Queue)
  pub next_queue : ℕ
  pub is_running : Bool

unfoldable pub subscribe : EventBroadcaster → EventBroadcaster × ℕ
subscribe b = (
  record b { subscribers = (b.next_queue, []) ∷ b.subscribers; next_queue = b.next_queue + 1 },
  b.next_queue,
)

abbrev is_queue : ℕ → ℕ × Queue → Bool
is_queue id (other, queue) = other == id

unfoldable pub unsubscribe : EventBroadcaster → ℕ → EventBroadcaster
unsubscribe b id = record b { subscribers = select (λ s. not (is_queue id s)) b.subscribers }

put_rest : EventPollState → Option (EventPollState × Queue) → Option Queue
put_rest s none = none
put_rest s (some (old, rest)) = put_nowait rest s

-- The oldest state makes room for the newest.
unfoldable pub offer : EventPollState → Queue → Option Queue
unfolding put_rest
offer s queue = if is_full queue then put_rest s (get_nowait queue) else put_nowait queue s

both_offered : ℕ → Option Queue → Option (List (ℕ × Queue)) → Option (List (ℕ × Queue))
both_offered id none rest = none
both_offered id (some queue) none = none
both_offered id (some queue) (some rest) = some ((id, queue) ∷ rest)

unfoldable pub broadcast : EventPollState → List (ℕ × Queue) → Option (List (ℕ × Queue))
unfolding both_offered
broadcast s [] = some []
broadcast s ((id, queue) ∷ subscribers) = both_offered id (offer s queue) (broadcast s subscribers)

with_subscribers : EventBroadcaster → Option (List (ℕ × Queue)) → Option EventBroadcaster
with_subscribers b none = none
with_subscribers b (some subscribers) = some (record b { subscribers = subscribers })

unfoldable pub poll_once : EventBroadcaster → EventPollState → Option EventBroadcaster
unfolding with_subscribers
poll_once b s =
    let b' = record b { state = s; ready = true } in
    let changed = b.ready && not (same_state s b.state) in
    if changed then with_subscribers b' (broadcast s b.subscribers) else some b'

with_task : Option EventBroadcaster → Option EventBroadcaster
with_task none = none
with_task (some b) = some (record b { is_running = true })

unfoldable pub start : EventBroadcaster → EventPollState → Option EventBroadcaster
unfolding with_task
start b s = if b.is_running then some b else with_task (poll_once b s)

unfoldable pub stop : EventBroadcaster → EventBroadcaster
stop b = record b { is_running = false }

-- One round of `_run`; a poll that raises is logged, and the round changes nothing.
unfoldable pub run_round : EventBroadcaster → Option EventPollState → Option EventBroadcaster
run_round b none = some b
run_round b (some s) = poll_once b s

-- `current_state`, which waits until the first poll
unfoldable pub current_state : EventBroadcaster → Option EventPollState
current_state b = if b.ready then some b.state else none

unfoldable pub queue_of : ℕ → List (ℕ × Queue) → Option Queue
queue_of id [] = none
queue_of id ((other, queue) ∷ subscribers) =
    if other == id then some queue else queue_of id subscribers

unfoldable pub set_queue : ℕ → Queue → List (ℕ × Queue) → List (ℕ × Queue)
set_queue id new [] = []
set_queue id new ((other, queue) ∷ subscribers) =
    if other == id
    then (other, new) ∷ subscribers
    else (other, queue) ∷ set_queue id new subscribers

taken :
    EventBroadcaster
    → ℕ
    → Option (EventPollState × Queue)
    → Option (EventBroadcaster × EventPollState)
unfolding set_queue
taken b id none = none
taken b id (some (s, rest)) = some (record b { subscribers = set_queue id rest b.subscribers }, s)

get_from : EventBroadcaster → ℕ → Option Queue → Option (EventBroadcaster × EventPollState)
unfolding taken
get_from b id none = none
get_from b id (some queue) = taken b id (get_nowait queue)

-- A websocket's `queue.get()`, once there is something to get
unfoldable pub get : EventBroadcaster → ℕ → Option (EventBroadcaster × EventPollState)
unfolding get_from
get b id = get_from b id (queue_of id b.subscribers)
