-- ===== src/Login/Slots.antt =====
-- The bounded checks of passwords, over all interleavings of the requests that run them. Taking a
-- slot, the two uses of the lock and giving the slot back are steps of their own, also where the source
-- gives a refused request's slot back before it leaves the lock.
use open_sec_dash.Prelude.{
  ℕ, suc, ◌+◌, ◌<◌, ◌≤◌, ◌≡◌, refl, ap, String, Bool, true, false, none, some, List, [], ◌∷◌, ◌++◌,
  ◌==◌, nat_eq, string_eq, length, contains, arith, Option-cases, inl, inr,
}
use text.Mathlib.TextEquality.{eq_iff}
use open_sec_dash.Prelude.Sums.{flag, count, sum_by}
use open_sec_dash.Login.{
  Throttle, scrypt_max_concurrency, discard, acquire_slot, release_slot, reserve_account,
  discard_account,
}

-- How far a request has come that has taken a slot: before its look at the set, with its account in
-- the set, and on its way out.
pub data Phase : Type 0 where
  acquired checking : String → Phase
  leaving : Phase

pub record Checks : Type 0 where
  pub throttle : Throttle
  pub requests : List Phase

-- A step of one request, wherever the others are. Where no slot is free `acquire` has none.
pub data Step (c : Checks) : Checks → Type 0 where
  acquire :
      (key : String) (t : Throttle)
      → acquire_slot c.throttle ≡ some t
      → Step c (record { throttle = t; requests = acquired key ∷ c.requests })
  reserve :
      (before after : List Phase) (key : String) (t : Throttle)
      → c.requests ≡ before ++ (acquired key ∷ after)
      → reserve_account c.throttle key ≡ some t
      → Step c (record { throttle = t; requests = before ++ (checking key ∷ after) })
  refuse :
      (before after : List Phase) (key : String)
      → c.requests ≡ before ++ (acquired key ∷ after)
      → reserve_account c.throttle key ≡ none
      → Step c (record { throttle = c.throttle; requests = before ++ (leaving ∷ after) })
  finish :
      (before after : List Phase) (key : String)
      → c.requests ≡ before ++ (checking key ∷ after)
      → Step c (record {
        throttle = discard_account c.throttle key;
        requests = before ++ (leaving ∷ after);
      })
  release :
      (before after : List Phase) (t : Throttle)
      → c.requests ≡ before ++ (leaving ∷ after)
      → release_slot c.throttle ≡ some t
      → Step c (record { throttle = t; requests = before ++ after })

pub data Reach (s : Checks) : Checks → Type 0 where
  here : Reach s s
  next : {c d : Checks} → Reach s c → Step c d → Reach s d

abbrev pub is_checking : String → Phase → Bool
is_checking key (acquired k) = false
is_checking key (checking k) = k == key
is_checking key leaving = false

-- Every taken slot is a request's, the set holds the accounts that are being checked, and no account
-- is checked twice.
pub record IsAccounted (c : Checks) : Type 0 where
  pub slots : c.throttle.password_check_slots + length c.requests ≡ scrypt_max_concurrency
  pub active :
      (key : String)
      → count (λ k. k == key) c.throttle.active_account_checks ≡ count (is_checking key) c.requests
  pub single : (key : String) → count (is_checking key) c.requests ≤ 1

count_missing :
    (key : String) (active : List String)
    → contains key active ≡ false
    → count (λ k. k == key) active ≡ 0
unfolding sum_by
count_missing key [] h = refl
count_missing key (k ∷ active) h =
    ground (arith, eq_iff k key, eq_iff key k, count_missing key active)

count-discard :
    (key other : String) (active : List String)
    → count (λ k. k == other) (discard key active)
      ≡ (elim (key == other) [ true ↦ 0 | false ↦ count (λ k. k == other) active ])
unfolding sum_by discard
count-discard key other [] = ground arith
count-discard key other (k ∷ active) =
    ground (arith, eq_iff k key, eq_iff key other, eq_iff k other, count-discard key other active)

-- A phase in the midst of the others weighs by itself.
sum_by-middle :
    (g : Phase → ℕ) (before : List Phase) (phase : Phase) (after : List Phase)
    → sum_by g (before ++ (phase ∷ after)) ≡ g phase + sum_by g (before ++ after)
unfolding sum_by
sum_by-middle g [] phase after = refl
sum_by-middle g (b ∷ before) phase after = omega (arith, sum_by-middle g before phase after)

length-middle :
    (before : List Phase) (phase : Phase) (after : List Phase)
    → length (before ++ (phase ∷ after)) ≡ suc (length (before ++ after))
length-middle [] phase after = refl
length-middle (b ∷ before) phase after = omega (arith, length-middle before phase after)

acquire-IsAccounted :
    (c : Checks) (key : String) (t : Throttle)
    → acquire_slot c.throttle ≡ some t
    → IsAccounted c
    → IsAccounted (record { throttle = t; requests = acquired key ∷ c.requests })
unfolding acquire_slot sum_by
acquire-IsAccounted c key t e h = record {
  slots = ground (arith, h.slots);
  active = λ other. ground (arith, h.active other);
  single = λ other. ground (arith, h.single other);
}

-- What the steps of one request have in common: it stands between the others.
module _ (c : Checks) (before after : List Phase) (h : IsAccounted c) where
  module _ (key : String) (at : c.requests ≡ before ++ (acquired key ∷ after)) where
    abbrev others_checking : String → ℕ
    others_checking other = count (is_checking other) (before ++ after)

    checking_others :
        (other : String) → count (is_checking other) c.requests ≡ others_checking other
    checking_others other =
        rw at (
          omega
            (arith, sum_by-middle (λ p. flag (is_checking other p)) before (acquired key) after))

    reserve-IsAccounted :
        (t : Throttle)
        → reserve_account c.throttle key ≡ some t
        → IsAccounted (record { throttle = t; requests = before ++ (checking key ∷ after) })
    unfolding reserve_account sum_by
    reserve-IsAccounted t e = record {
      slots = ground (
        arith,
        h.slots,
        ap length at,
        length-middle before (acquired key) after,
        length-middle before (checking key) after,
      );
      active = λ other. ground (
        arith,
        h.active other,
        checking_others other,
        sum_by-middle (λ p. flag (is_checking other p)) before (checking key) after,
      );
      single = λ other. ground (
        arith,
        h.active key,
        h.single other,
        checking_others other,
        eq_iff key other,
        count_missing key c.throttle.active_account_checks,
        sum_by-middle (λ p. flag (is_checking other p)) before (checking key) after,
      );
    }

    refuse-IsAccounted :
        IsAccounted (record { throttle = c.throttle; requests = before ++ (leaving ∷ after) })
    refuse-IsAccounted = record {
      slots = omega (
        arith,
        h.slots,
        ap length at,
        length-middle before (acquired key) after,
        length-middle before leaving after,
      );
      active = λ other. omega (
        arith,
        h.active other,
        checking_others other,
        sum_by-middle (λ p. flag (is_checking other p)) before leaving after,
      );
      single = λ other. omega (
        arith,
        h.single other,
        checking_others other,
        sum_by-middle (λ p. flag (is_checking other p)) before leaving after,
      );
    }

  finish-IsAccounted :
      (key : String)
      → c.requests ≡ before ++ (checking key ∷ after)
      → IsAccounted (record {
        throttle = discard_account c.throttle key;
        requests = before ++ (leaving ∷ after);
      })
  unfolding discard_account
  finish-IsAccounted key at =
      let apart : (other : String)
          → count (is_checking other) c.requests
            ≡ flag (key == other) + count (is_checking other) (before ++ after) =
        λ other.
          rw at (sum_by-middle (λ p. flag (is_checking other p)) before (checking key) after) in
      record {
        slots = omega (
          arith,
          h.slots,
          ap length at,
          length-middle before (checking key) after,
          length-middle before leaving after,
        );
        active = λ other. ground (
          arith,
          h.active other,
          h.single other,
          apart other,
          count-discard key other c.throttle.active_account_checks,
          sum_by-middle (λ p. flag (is_checking other p)) before leaving after,
        );
        single = λ other. omega (
          arith,
          h.single other,
          apart other,
          sum_by-middle (λ p. flag (is_checking other p)) before leaving after,
        );
      }

  module _ (at : c.requests ≡ before ++ (leaving ∷ after)) where
    -- The semaphore is not full while somebody is on its way out.
    release_slot_total :
        release_slot c.throttle
        ≡ some (record c.throttle { password_check_slots = c.throttle.password_check_slots + 1 })
    unfolding release_slot
    release_slot_total = ground (arith, h.slots, ap length at, length-middle before leaving after)

    release-IsAccounted :
        (t : Throttle)
        → release_slot c.throttle ≡ some t
        → IsAccounted (record { throttle = t; requests = before ++ after })
    unfolding release_slot
    release-IsAccounted t e = record {
      slots = ground (arith, h.slots, ap length at, length-middle before leaving after);
      active = λ other. ground (
        arith,
        h.active other,
        ap (count (is_checking other)) at,
        sum_by-middle (λ p. flag (is_checking other p)) before leaving after,
      );
      single = λ other. omega (
        arith,
        h.single other,
        ap (count (is_checking other)) at,
        sum_by-middle (λ p. flag (is_checking other p)) before leaving after,
      );
    }

Step-IsAccounted : {c d : Checks} → Step c d → IsAccounted c → IsAccounted d
Step-IsAccounted {c} (acquire key t e) h = acquire-IsAccounted c key t e h
Step-IsAccounted {c} (reserve before after key t at e) h =
    reserve-IsAccounted c before after h key at t e
Step-IsAccounted {c} (refuse before after key at e) h = refuse-IsAccounted c before after h key at
Step-IsAccounted {c} (finish before after key at) h = finish-IsAccounted c before after h key at
Step-IsAccounted {c} (release before after t at e) h = release-IsAccounted c before after h at t e

-- However the steps of the requests interleave, the free slots and the requests that hold one are
-- five together, the set holds exactly the accounts whose check is in flight, and no account has
-- two checks in flight.
pub Reach-IsAccounted : {s c : Checks} → IsAccounted s → Reach s c → IsAccounted c
Reach-IsAccounted h here = h
Reach-IsAccounted h (next r step) = Step-IsAccounted step (Reach-IsAccounted h r)

-- The steps that a request still has to make.
abbrev pub steps_left : Phase → ℕ
steps_left (acquired key) = 3
steps_left (checking key) = 2
steps_left leaving = 1

-- A step of the one request between `before` and `after`, which brings it nearer to its end and leaves
-- the others where they are.
abbrev pub MovesOn : Checks → List Phase → Phase → List Phase → Type 0
MovesOn c before phase after =
    (d : Checks) × (rest : List Phase) × Step c d
    × (d.requests ≡ before ++ (rest ++ after))
    × (sum_by steps_left rest < steps_left phase)

MovesOn-of :
    (c : Checks) (before after : List Phase) (phase : Phase)
    → c.requests ≡ before ++ (phase ∷ after)
    → IsAccounted c
    → MovesOn c before phase after
unfolding sum_by
MovesOn-of c before after (acquired key) at h =
    elim (Option-cases (reserve_account c.throttle key)) [
      | inl taken ↦ (
        record { throttle = c.throttle; requests = before ++ (leaving ∷ after) },
        leaving ∷ [],
        refuse before after key at taken,
        refl,
        omega arith,
      )
      | inr (t, e) ↦ (
        record { throttle = t; requests = before ++ (checking key ∷ after) },
        checking key ∷ [],
        reserve before after key t at e,
        refl,
        omega arith,
      )
    ]
MovesOn-of c before after (checking key) at h = (
  record { throttle = discard_account c.throttle key; requests = before ++ (leaving ∷ after) },
  leaving ∷ [],
  finish before after key at,
  refl,
  omega arith,
)
MovesOn-of c before after leaving at h = (
  record {
    throttle = record c.throttle { password_check_slots = c.throttle.password_check_slots + 1 };
    requests = before ++ after;
  },
  [],
  release before after _ at (release_slot_total c before after h at),
  refl,
  omega arith,
)

-- Whatever the requests have done so far, each one that holds a slot can make its next step and is
-- then nearer to having given it back, with the others where they were: no release raises.
pub Reach-MovesOn :
    {s c : Checks} (before after : List Phase) (phase : Phase)
    → IsAccounted s
    → Reach s c
    → c.requests ≡ before ++ (phase ∷ after)
    → MovesOn c before phase after
Reach-MovesOn {c} before after phase h r at =
    MovesOn-of c before after phase at (Reach-IsAccounted h r)
