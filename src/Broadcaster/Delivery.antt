-- ===== src/Broadcaster/Delivery.antt =====
-- backend/app/services/event_broadcaster.py: what a poll puts into the queues of the websockets.
use open_sec_dash.Prelude.{
  ℕ, ◌≡◌, refl, subst, inl, inr, Bool, true, false, not, ◌&&◌, some, List, [], ◌∷◌, ◌==◌, nat_eq,
  if◌then◌else◌, select, arith, Bool-cases, Option-cases, ◌≢◌, is_some,
}
use open_sec_dash.Broadcaster.{
  EventPollState, EventBroadcaster, Queue, same_flag, same_state, offer, put_nowait, get_nowait,
  broadcast, poll_once, subscribe, unsubscribe, queue_of, get, get_from, taken, set_queue, is_queue,
}

-- A queue that is empty, or holds the given state alone
unfoldable pub IsCurrent : EventPollState → Queue → Type 0
IsCurrent s [] = Unit {0}
IsCurrent s (t ∷ []) = t ≡ s
IsCurrent s (t ∷ u ∷ queue) = ⊥

unfoldable pub AllCurrent : EventPollState → List (ℕ × Queue) → Type 0
AllCurrent s [] = Unit {0}
AllCurrent s ((id, queue) ∷ subscribers) = IsCurrent s queue × AllCurrent s subscribers

-- The new state takes the place of an old one.
pub offer-current :
    (s t : EventPollState) (queue : Queue) → IsCurrent s queue → offer t queue ≡ some (t ∷ [])
unfolding IsCurrent offer get_nowait put_nowait
offer-current s t [] h = refl
offer-current s t (u ∷ []) h = refl
offer-current s t (u ∷ v ∷ queue) h = absurd h

unfoldable pub replaced : EventPollState → List (ℕ × Queue) → List (ℕ × Queue)
replaced t [] = []
replaced t ((id, queue) ∷ subscribers) = (id, t ∷ []) ∷ replaced t subscribers

pub broadcast-replaced :
    (s t : EventPollState) (subscribers : List (ℕ × Queue))
    → AllCurrent s subscribers
    → broadcast t subscribers ≡ some (replaced t subscribers)
unfolding AllCurrent broadcast replaced
broadcast-replaced s t [] h = refl
broadcast-replaced s t ((id, queue) ∷ subscribers) h =
    rw (offer-current s t queue h.0, broadcast-replaced s t subscribers h.1) refl

pub replaced-AllCurrent :
    (t : EventPollState) (subscribers : List (ℕ × Queue)) → AllCurrent t (replaced t subscribers)
unfolding AllCurrent IsCurrent replaced
replaced-AllCurrent t [] = tt
replaced-AllCurrent t ((id, queue) ∷ subscribers) = (refl, replaced-AllCurrent t subscribers)

pub queue_of-replaced :
    (t : EventPollState) (id : ℕ) (queue : Queue) (subscribers : List (ℕ × Queue))
    → queue_of id subscribers ≡ some queue
    → queue_of id (replaced t subscribers) ≡ some (t ∷ [])
unfolding queue_of replaced
queue_of-replaced t id queue [] h = absurd (ground arith)
queue_of-replaced t id queue ((other, q) ∷ subscribers) h =
    ground (arith, queue_of-replaced t id queue subscribers)

same_flag-eq : (a b : Bool) → same_flag a b ≡ true → a ≡ b
same_flag-eq true b h = ground arith
same_flag-eq false b h = ground arith

pub same_state-eq : (s t : EventPollState) → same_state s t ≡ true → s ≡ t
same_state-eq s t h = ground (arith, same_flag-eq s.enabled t.enabled)

-- Before the first poll no queue holds anything; from then on each holds the current state or
-- nothing.
pub record IsSound (b : EventBroadcaster) : Type 0 where
  pub current : AllCurrent b.state b.subscribers
  pub quiet : (s : EventPollState) → b.ready ≡ false → AllCurrent s b.subscribers

abbrev pub changed : EventBroadcaster → EventPollState → Bool
changed b s = b.ready && not (same_state s b.state)

unfoldable pub polled : EventBroadcaster → EventPollState → EventBroadcaster
polled b s = record b {
  state = s;
  ready = true;
  subscribers = if changed b s then replaced s b.subscribers else b.subscribers;
}

pub poll_once-polled :
    (b : EventBroadcaster) (s : EventPollState) → IsSound b → poll_once b s ≡ some (polled b s)
unfolding poll_once polled
poll_once-polled b s h = elim (Bool-cases (changed b s)) [
  | inl e ↦ rw (e, broadcast-replaced b.state s b.subscribers h.current) refl
  | inr e ↦ rw e refl
]

pub polled-IsSound : (b : EventBroadcaster) (s : EventPollState) → IsSound b → IsSound (polled b s)
unfolding polled
polled-IsSound b s h = record {
  current = elim (Bool-cases (changed b s)) [
    | inl e ↦ rw e (replaced-AllCurrent s b.subscribers)
    | inr e ↦ rw e (elim (Bool-cases b.ready) [
      | inl r ↦ let same : s ≡ b.state = same_state-eq s b.state (ground arith) in rw same h.current
      | inr r ↦ h.quiet s r
    ])
  ];
  quiet = λ t r. absurd (ground arith);
}

AllCurrent-select :
    (s : EventPollState) (p : ℕ × Queue → Bool) (subscribers : List (ℕ × Queue))
    → AllCurrent s subscribers
    → AllCurrent s (select p subscribers)
unfolding AllCurrent
AllCurrent-select s p [] h = tt
AllCurrent-select s p ((id, queue) ∷ subscribers) h = elim (Bool-cases (p (id, queue))) [
  | inl e ↦ rw e (h.0, AllCurrent-select s p subscribers h.1)
  | inr e ↦ rw e (AllCurrent-select s p subscribers h.1)
]

AllCurrent-set_queue :
    (s : EventPollState) (id : ℕ) (subscribers : List (ℕ × Queue))
    → AllCurrent s subscribers
    → AllCurrent s (set_queue id [] subscribers)
unfolding AllCurrent IsCurrent set_queue
AllCurrent-set_queue s id [] h = tt
AllCurrent-set_queue s id ((other, queue) ∷ subscribers) h = elim (Bool-cases (other == id)) [
  | inl e ↦ rw e (tt, h.1)
  | inr e ↦ rw e (h.0, AllCurrent-set_queue s id subscribers h.1)
]

queue_of-IsCurrent :
    (s : EventPollState) (id : ℕ) (queue : Queue) (subscribers : List (ℕ × Queue))
    → AllCurrent s subscribers
    → queue_of id subscribers ≡ some queue
    → IsCurrent s queue
unfolding AllCurrent queue_of
queue_of-IsCurrent s id queue [] h e = absurd (ground arith)
queue_of-IsCurrent s id queue ((other, q) ∷ subscribers) h e = elim (Bool-cases (other == id)) [
  | inl f ↦ let same : q ≡ queue = ground arith in subst (IsCurrent s) same h.0
  | inr f ↦ queue_of-IsCurrent s id queue subscribers h.1 (ground arith)
]

pub subscribe-IsSound : (b : EventBroadcaster) → IsSound b → IsSound (subscribe b).0
unfolding subscribe AllCurrent IsCurrent
subscribe-IsSound b h = record { current = (tt, h.current); quiet = λ s r. (tt, h.quiet s r) }

pub unsubscribe-IsSound : (b : EventBroadcaster) (id : ℕ) → IsSound b → IsSound (unsubscribe b id)
unfolding unsubscribe
unsubscribe-IsSound b id h = record {
  current = AllCurrent-select b.state _ b.subscribers h.current;
  quiet = λ s r. AllCurrent-select s _ b.subscribers (h.quiet s r);
}

-- What is left of a broadcaster when a websocket has taken the state out of its queue
unfoldable pub emptied : EventBroadcaster → ℕ → EventBroadcaster
unfolding set_queue
emptied b id = record b { subscribers = set_queue id [] b.subscribers }

taken_one :
    (t : EventPollState) (b b' : EventBroadcaster) (id : ℕ) (s : EventPollState) (queue : Queue)
    → IsCurrent t queue
    → taken b id (get_nowait queue) ≡ some (b', s)
    → (s ≡ t) × (b' ≡ emptied b id)
unfolding taken get_nowait IsCurrent emptied
taken_one t b b' id s [] h e = absurd (ground arith)
taken_one t b b' id s (u ∷ []) h e = (ground arith, ground arith)
taken_one t b b' id s (u ∷ v ∷ queue) h e = absurd h

-- What a websocket gets is the current state, and its queue is empty afterwards.
pub get-emptied :
    (t : EventPollState) (b b' : EventBroadcaster) (id : ℕ) (s : EventPollState)
    → AllCurrent t b.subscribers
    → get b id ≡ some (b', s)
    → (s ≡ t) × (b' ≡ emptied b id)
unfolding get get_from
get-emptied t b b' id s h e = elim (Option-cases (queue_of id b.subscribers)) [
  | inl f ↦ absurd (ground arith)
  | inr (queue, f) ↦
      taken_one t b b' id s queue (queue_of-IsCurrent t id queue b.subscribers h f)
        (subst (λ o. get_from b id o ≡ some (b', s)) f e)
]

pub emptied-IsSound : (b : EventBroadcaster) (id : ℕ) → IsSound b → IsSound (emptied b id)
unfolding emptied
emptied-IsSound b id h = record {
  current = AllCurrent-set_queue b.state id b.subscribers h.current;
  quiet = λ s r. AllCurrent-set_queue s id b.subscribers (h.quiet s r);
}

pub queue_of-set_queue :
    (q id : ℕ) (new : Queue) (subscribers : List (ℕ × Queue))
    → id ≢ q
    → queue_of q (set_queue id new subscribers) ≡ queue_of q subscribers
unfolding queue_of set_queue
queue_of-set_queue q id new [] h = refl
queue_of-set_queue q id new ((other, queue) ∷ subscribers) h =
    ground (arith, queue_of-set_queue q id new subscribers)

pub queue_of-set_queue_self :
    (q : ℕ) (new : Queue) (subscribers : List (ℕ × Queue))
    → is_some (queue_of q subscribers) ≡ true
    → queue_of q (set_queue q new subscribers) ≡ some new
unfolding queue_of set_queue
queue_of-set_queue_self q new [] h = absurd (ground arith)
queue_of-set_queue_self q new ((other, queue) ∷ subscribers) h =
    ground (arith, queue_of-set_queue_self q new subscribers)

pub queue_of-select :
    (q id : ℕ) (subscribers : List (ℕ × Queue))
    → id ≢ q
    → queue_of q (select (λ s. not (is_queue id s)) subscribers) ≡ queue_of q subscribers
unfolding queue_of
queue_of-select q id [] h = refl
queue_of-select q id ((other, queue) ∷ subscribers) h =
    ground (arith, queue_of-select q id subscribers)
