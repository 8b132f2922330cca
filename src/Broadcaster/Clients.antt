-- ===== src/Broadcaster/Clients.antt =====
-- backend/app/services/event_broadcaster.py: what a websocket knows, over all interleavings of polls,
-- arrivals, departures and reads.
use open_sec_dash.Prelude.{
  ℕ, ◌+◌, ◌<◌, ◌≡◌, ◌≢◌, refl, ◌∙◌, sym, subst, inl, inr, Bool, true, false, Option, none, some,
  List, [], ◌∷◌, ◌==◌, nat_eq, if◌then◌else◌, arith, is_some, Bool-cases, Option-cases, ap,
}
use open_sec_dash.Broadcaster.{
  EventPollState, EventBroadcaster, Queue, poll_once, subscribe, unsubscribe, start, stop,
  run_round, queue_of, get, current_state, with_task,
}
use open_sec_dash.Broadcaster.Delivery.{
  IsSound, replaced, emptied, subscribe-IsSound, unsubscribe-IsSound, get-emptied, emptied-IsSound,
  queue_of-set_queue, queue_of-set_queue_self, queue_of-select, queue_of-replaced, same_state-eq,
  changed, polled, poll_once-polled, polled-IsSound,
}

-- A websocket's view: the broadcaster, and the state that the websocket heard of last
pub record Client : Type 0 where
  pub broadcaster : EventBroadcaster
  pub known : Option EventPollState

-- What may happen while the websocket with the queue `q` is subscribed
pub data Step (q : ℕ) : Client → Client → Type 0 where
  polls :
      (c : Client) (b : EventBroadcaster) (s : Option EventPollState)
      → run_round c.broadcaster s ≡ some b
      → Step q c (record c { broadcaster = b })
  starts :
      (c : Client) (b : EventBroadcaster) (s : EventPollState)
      → start c.broadcaster s ≡ some b
      → Step q c (record c { broadcaster = b })
  stops : (c : Client) → Step q c (record c { broadcaster = stop c.broadcaster })
  joins : (c : Client) → Step q c (record c { broadcaster = (subscribe c.broadcaster).0 })
  leaves :
      (c : Client) (id : ℕ)
      → id ≢ q
      → Step q c (record c { broadcaster = unsubscribe c.broadcaster id })
  other_reads :
      (c : Client) (id : ℕ) (b : EventBroadcaster) (s : EventPollState)
      → id ≢ q
      → get c.broadcaster id ≡ some (b, s)
      → Step q c (record c { broadcaster = b })
  reads :
      (c : Client) (b : EventBroadcaster) (s : EventPollState)
      → get c.broadcaster q ≡ some (b, s)
      → Step q c (record { broadcaster = b; known = some s })
  asks :
      (c : Client) (s : EventPollState)
      → current_state c.broadcaster ≡ some s
      → Step q c (record c { known = some s })

-- The websocket's queue holds the current state, or it has nothing more to tell.
pub record IsInformed (q : ℕ) (c : Client) : Type 0 where
  pub sound : IsSound c.broadcaster
  pub fresh : q < c.broadcaster.next_queue
  pub listed : is_some (queue_of q c.broadcaster.subscribers) ≡ true
  pub heard : (s : EventPollState) → c.known ≡ some s → c.broadcaster.ready ≡ true
  pub news :
      (s : EventPollState)
      → c.known ≡ some s
      → queue_of q c.broadcaster.subscribers ≡ some []
      → s ≡ c.broadcaster.state

queue_of-present :
    (t : EventPollState) (id : ℕ) (subscribers : List (ℕ × Queue))
    → is_some (queue_of id subscribers) ≡ true
    → queue_of id (replaced t subscribers) ≡ some (t ∷ [])
queue_of-present t id subscribers h = elim (Option-cases (queue_of id subscribers)) [
  | inl e ↦ absurd (ground arith)
  | inr (queue, e) ↦ queue_of-replaced t id queue subscribers e
]

polled-IsInformed :
    (q : ℕ) (c : Client) (s : EventPollState)
    → IsInformed q c
    → IsInformed q (record c { broadcaster = polled c.broadcaster s })
unfolding polled
polled-IsInformed q c s h =
    let there = queue_of-present s q c.broadcaster.subscribers h.listed in
    record {
      sound = polled-IsSound c.broadcaster s h.sound;
      fresh = h.fresh;
      listed = elim (Bool-cases (changed c.broadcaster s)) [
        | inl e ↦ rw (e, there) refl
        | inr e ↦ rw e h.listed
      ];
      heard = λ t k. refl;
      news = λ t k empty. elim (Bool-cases (changed c.broadcaster s)) [
        | inl e ↦ absurd (ground arith)
        | inr e ↦
            let ready = h.heard t k in
            let same : s ≡ c.broadcaster.state =
              same_state-eq s c.broadcaster.state (ground arith) in
            let still : queue_of q c.broadcaster.subscribers ≡ some [] =
              subst
                (λ b.
                  queue_of q
                    (if b then replaced s c.broadcaster.subscribers else c.broadcaster.subscribers)
                  ≡ some [])
                e empty in
            h.news t k still ∙ sym same
      ];
    }

-- Whether the task of `_run` exists does not matter to what a websocket knows.
running-IsInformed :
    (q : ℕ) (c : Client) (r : Bool)
    → IsInformed q c
    → IsInformed q (record c { broadcaster = record c.broadcaster { is_running = r } })
running-IsInformed q c r h = record {
  sound = record { current = h.sound.current; quiet = h.sound.quiet };
  fresh = h.fresh;
  listed = h.listed;
  heard = h.heard;
  news = h.news;
}

poll_once-IsInformed :
    (q : ℕ) (c : Client) (b : EventBroadcaster) (s : EventPollState)
    → IsInformed q c
    → poll_once c.broadcaster s ≡ some b
    → IsInformed q (record c { broadcaster = b })
poll_once-IsInformed q c b s h e =
    let same : polled c.broadcaster s ≡ b =
      ground (arith, poll_once-polled c.broadcaster s h.sound) in
    subst (λ b'. IsInformed q (record c { broadcaster = b' })) same (polled-IsInformed q c s h)

run_round-IsInformed :
    (q : ℕ) (c : Client) (b : EventBroadcaster) (s : Option EventPollState)
    → IsInformed q c
    → run_round c.broadcaster s ≡ some b
    → IsInformed q (record c { broadcaster = b })
unfolding run_round
run_round-IsInformed q c b none h e =
    let same : c.broadcaster ≡ b = ground arith in
    subst (λ b'. IsInformed q (record c { broadcaster = b' })) same h
run_round-IsInformed q c b (some s) h e = poll_once-IsInformed q c b s h e

start-IsInformed :
    (q : ℕ) (c : Client) (b : EventBroadcaster) (s : EventPollState)
    → IsInformed q c
    → start c.broadcaster s ≡ some b
    → IsInformed q (record c { broadcaster = b })
unfolding start with_task
start-IsInformed q c b s h e = elim (Bool-cases c.broadcaster.is_running) [
  | inl r ↦
      let same : c.broadcaster ≡ b = ground arith in
      subst (λ b'. IsInformed q (record c { broadcaster = b' })) same h
  | inr r ↦
      let same : record (polled c.broadcaster s) { is_running = true } ≡ b =
        ground (arith, poll_once-polled c.broadcaster s h.sound) in
      subst (λ b'. IsInformed q (record c { broadcaster = b' })) same
        (running-IsInformed q (record c { broadcaster = polled c.broadcaster s }) true
          (polled-IsInformed q c s h))
]

subscribe-IsInformed :
    (q : ℕ) (c : Client)
    → IsInformed q c
    → IsInformed q (record c { broadcaster = (subscribe c.broadcaster).0 })
unfolding subscribe queue_of
subscribe-IsInformed q c h =
    let other : (c.broadcaster.next_queue == q) ≡ false = ground (arith, h.fresh) in
    record {
      sound = subscribe-IsSound c.broadcaster h.sound;
      fresh = omega (arith, h.fresh);
      listed = rw other h.listed;
      heard = h.heard;
      news = λ s k e. h.news s k (ground arith);
    }

unsubscribe-IsInformed :
    (q id : ℕ) (c : Client)
    → id ≢ q
    → IsInformed q c
    → IsInformed q (record c { broadcaster = unsubscribe c.broadcaster id })
unfolding unsubscribe
unsubscribe-IsInformed q id c other h =
    let same = queue_of-select q id c.broadcaster.subscribers other in
    record {
      sound = unsubscribe-IsSound c.broadcaster id h.sound;
      fresh = h.fresh;
      listed = rw same h.listed;
      heard = h.heard;
      news = λ s k e. h.news s k (sym same ∙ e);
    }

emptied-IsInformed :
    (q id : ℕ) (c : Client)
    → id ≢ q
    → IsInformed q c
    → IsInformed q (record c { broadcaster = emptied c.broadcaster id })
unfolding emptied
emptied-IsInformed q id c other h =
    let same = queue_of-set_queue q id [] c.broadcaster.subscribers other in
    record {
      sound = emptied-IsSound c.broadcaster id h.sound;
      fresh = h.fresh;
      listed = rw same h.listed;
      heard = h.heard;
      news = λ s k e. h.news s k (sym same ∙ e);
    }

-- The websocket takes the state out of its own queue.
read-IsInformed :
    (q : ℕ) (c : Client)
    → IsInformed q c
    → c.broadcaster.ready ≡ true
    → IsInformed q
        (record { broadcaster = emptied c.broadcaster q; known = some c.broadcaster.state })
unfolding emptied
read-IsInformed q c h ready =
    let mine = queue_of-set_queue_self q [] c.broadcaster.subscribers h.listed in
    record {
      sound = emptied-IsSound c.broadcaster q h.sound;
      fresh = h.fresh;
      listed = rw mine refl;
      heard = λ s k. ready;
      news = λ s k e. ground arith;
    }

get-ready :
    (q : ℕ) (b b' : EventBroadcaster) (s : EventPollState)
    → IsSound b
    → get b q ≡ some (b', s)
    → b.ready ≡ true
get-ready q b b' s h e = elim (Bool-cases b.ready) [
  | inl r ↦ r
  | inr r ↦
      let (impossible, same) = get-emptied later b b' q s (h.quiet later r) e in
      absurd (omega (arith, ap (λ (t : EventPollState). t.last_event_id) impossible))
]
  where
    later : EventPollState
    later = record { enabled = true; last_event_id = s.last_event_id + 1 }

asked-IsInformed :
    (q : ℕ) (c : Client) (s : EventPollState)
    → IsInformed q c
    → current_state c.broadcaster ≡ some s
    → IsInformed q (record c { known = some s })
unfolding current_state
asked-IsInformed q c s h e = record {
  sound = h.sound;
  fresh = h.fresh;
  listed = h.listed;
  heard = λ t k. ground arith;
  news = λ t k empty. ground arith;
}

Step-IsInformed : {q : ℕ} {c d : Client} → Step q c d → IsInformed q c → IsInformed q d
Step-IsInformed {q} (polls c b s e) h = run_round-IsInformed q c b s h e
Step-IsInformed {q} (starts c b s e) h = start-IsInformed q c b s h e
Step-IsInformed {q} (stops c) h = unfold stop in running-IsInformed q c false h
Step-IsInformed {q} (joins c) h = subscribe-IsInformed q c h
Step-IsInformed {q} (leaves c id other) h = unsubscribe-IsInformed q id c other h
Step-IsInformed {q} (other_reads c id b s other e) h =
    let (state, same) = get-emptied c.broadcaster.state c.broadcaster b id s h.sound.current e in
    subst (λ b'. IsInformed q (record c { broadcaster = b' })) (sym same)
      (emptied-IsInformed q id c other h)
Step-IsInformed {q} (reads c b s e) h =
    let (state, same) = get-emptied c.broadcaster.state c.broadcaster b q s h.sound.current e in
    let own = read-IsInformed q c h (get-ready q c.broadcaster b s h.sound e) in
    subst (λ b'. IsInformed q (record { broadcaster = b'; known = some s })) (sym same)
      (subst (λ t. IsInformed q (record { broadcaster = emptied c.broadcaster q; known = some t }))
        (sym state) own)
Step-IsInformed {q} (asks c s e) h = asked-IsInformed q c s h e

pub data Reach (q : ℕ) (c : Client) : Client → Type 0 where
  here : Reach q c c
  next : {d e : Client} → Reach q c d → Step q d e → Reach q c e

-- The websocket that has just subscribed
abbrev pub newcomer : EventBroadcaster → Client
newcomer b = record { broadcaster = (subscribe b).0; known = none }

newcomer-IsInformed : (b : EventBroadcaster) → IsSound b → IsInformed (subscribe b).1 (newcomer b)
unfolding subscribe queue_of
newcomer-IsInformed b h = record {
  sound = subscribe-IsSound b h;
  fresh = omega arith;
  listed = ground arith;
  heard = λ s k. absurd (ground arith);
  news = λ s k e. absurd (ground arith);
}

steps-IsInformed : {q : ℕ} {c d : Client} → IsInformed q c → Reach q c d → IsInformed q d
steps-IsInformed h here = h
steps-IsInformed h (next r step) = Step-IsInformed step (steps-IsInformed h r)

-- No change is lost although each queue has one place: whatever polls, arrivals, departures and reads
-- follow the subscription of a websocket, what its queue holds is the current state, and when the
-- queue is empty the state that the websocket heard of last is the current one.
pub Reach-IsInformed :
    (b : EventBroadcaster) (c : Client)
    → IsSound b
    → Reach (subscribe b).1 (newcomer b) c
    → IsInformed (subscribe b).1 c
Reach-IsInformed b c h r = steps-IsInformed (newcomer-IsInformed b h) r

-- After whatever has happened, a poll gets through: no queue is full when the broadcaster puts a
-- state into it, and none is empty when it takes one out.
pub Reach-run_round :
    (b : EventBroadcaster) (c : Client) (s : Option EventPollState)
    → IsSound b
    → Reach (subscribe b).1 (newcomer b) c
    → (b' : EventBroadcaster) × (run_round c.broadcaster s ≡ some b')
unfolding run_round
Reach-run_round b c none h r = (c.broadcaster, refl)
Reach-run_round b c (some s) h r =
    (polled c.broadcaster s, poll_once-polled c.broadcaster s (Reach-IsInformed b c h r).sound)
