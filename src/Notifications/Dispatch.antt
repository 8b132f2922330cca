-- ===== src/Notifications/Dispatch.antt =====
-- What a dispatch does to each notification, and what it reports.
use open_sec_dash.Prelude.{
  ℕ, ◌+◌, ◌≡◌, refl, Bool, true, false, not, ◌&&◌, ◌||◌, Option, none, some, List, [], ◌∷◌, arith,
  ◌==◌, length, select, any, ltb, first, if◌then◌else◌, Bool-cases, inl, inr, ◌∙◌,
}
use open_sec_dash.Prelude.Text.{Text, text_eq}
use open_sec_dash.Prelude.Sums.{sum_by, count}
use open_sec_dash.Notifications.{
  Notification, NotificationRule, Status, pending, sent, failed, skipped, is_pending, is_sent,
  is_of,
}
use open_sec_dash.Notifications.Delivery.{
  Delivery, Dispatched, mark, everyone, as_skipped, as_failed, as_sent, deliver, cools_down,
  in_window, is_empty, is_unavailable, managed_insight_type, dispatch_configured, dispatch_rule,
  dispatch_all, dispatch_pending_notifications,
}

-- A row keeps what it is about, and changes its status only while it is pending.
pub record IsKept (n m : Notification) : Type 0 where
  pub same_rule : m.rule_id ≡ n.rule_id
  pub same_payload : m.payload ≡ n.payload
  pub settled : is_pending n.status ≡ false → m ≡ n

pub AllKept : List Notification → List Notification → Type 0
AllKept [] [] = Unit
AllKept [] (m ∷ ms) = ⊥
AllKept (n ∷ ns) [] = ⊥
AllKept (n ∷ ns) (m ∷ ms) = IsKept n m × AllKept ns ms

AllKept-refl : (rows : List Notification) → AllKept rows rows
unfolding AllKept
AllKept-refl [] = tt
AllKept-refl (n ∷ rows) =
    (record { same_rule = refl; same_payload = refl; settled = λ h. refl }, AllKept-refl rows)

IsKept-trans : (a b c : Notification) → IsKept a b → IsKept b c → IsKept a c
IsKept-trans a b c p q = record {
  same_rule = q.same_rule ∙ p.same_rule;
  same_payload = q.same_payload ∙ p.same_payload;
  settled = λ h. let same = p.settled h in q.settled (rw same h) ∙ same;
}

AllKept-trans : (as' bs cs : List Notification) → AllKept as' bs → AllKept bs cs → AllKept as' cs
unfolding AllKept
AllKept-trans [] [] [] p q = tt
AllKept-trans [] [] (c ∷ cs) p q = absurd q
AllKept-trans [] (b ∷ bs) cs p q = absurd p
AllKept-trans (a ∷ as') [] cs p q = absurd p
AllKept-trans (a ∷ as') (b ∷ bs) [] p q = absurd q
AllKept-trans (a ∷ as') (b ∷ bs) (c ∷ cs) p q =
    (IsKept-trans a b c p.0 q.0, AllKept-trans as' bs cs p.1 q.1)

-- What a step reports is how many rows it sent.
pub record IsReported (rows : List Notification) (r : Dispatched) : Type 0 where
  pub kept : AllKept rows r.0
  pub reported : count (λ n. is_sent n.status) r.0 ≡ count (λ n. is_sent n.status) rows + r.1

unchanged-IsReported : (rows : List Notification) → IsReported rows (rows, 0)
unchanged-IsReported rows = record { kept = AllKept-refl rows; reported = omega arith }

if-IsReported :
    (rows : List Notification) (b : Bool) (x y : Dispatched)
    → IsReported rows x
    → IsReported rows y
    → IsReported rows (if b then x else y)
if-IsReported rows true x y hx hy = hx
if-IsReported rows false x y hx hy = hy

pending_not_sent : (s : Status) → is_pending s ≡ true → is_sent s ≡ false
pending_not_sent pending h = refl
pending_not_sent sent h = cc
pending_not_sent failed h = cc
pending_not_sent skipped h = cc

module _ (rule_id : Text) where
  if_marked-IsKept :
      (f : Notification → Notification) (n : Notification) (b : Bool)
      → (f n).rule_id ≡ n.rule_id
      → (f n).payload ≡ n.payload
      → IsKept n (if is_of rule_id n && b then f n else n)
  if_marked-IsKept f n b same payload = elim (Bool-cases (is_of rule_id n && b)) [
    | inl e ↦
        rw e (record {
          same_rule = same;
          same_payload = payload;
          settled = λ h. absurd (ground arith);
        })
    | inr e ↦ rw e (record { same_rule = refl; same_payload = refl; settled = λ h. refl })
  ]

  mark-AllKept :
      (p : Notification → Bool) (f : Notification → Notification)
      → ((n : Notification) → ((f n).rule_id ≡ n.rule_id) × ((f n).payload ≡ n.payload))
      → (rows : List Notification) → AllKept rows (mark rule_id p f rows)
  unfolding mark AllKept
  mark-AllKept p f keeps [] = tt
  mark-AllKept p f keeps (n ∷ rows) =
      (if_marked-IsKept f n (p n) (keeps n).0 (keeps n).1, mark-AllKept p f keeps rows)

  -- Marking pending rows as anything but sent changes no count of sent rows.
  count-mark :
      (p : Notification → Bool) (f : Notification → Notification)
      → ((n : Notification) → is_sent (f n).status ≡ false)
      → (rows : List Notification)
      → count (λ n. is_sent n.status) (mark rule_id p f rows) ≡ count (λ n. is_sent n.status) rows
  unfolding mark sum_by
  count-mark p f unsent [] = refl
  count-mark p f unsent (n ∷ rows) =
      ground (arith, unsent n, pending_not_sent n.status, count-mark p f unsent rows)

  count-mark_sent :
      (now : ℕ) (rows : List Notification)
      → count (λ n. is_sent n.status) (mark rule_id everyone (as_sent now) rows)
        ≡ count (λ n. is_sent n.status) rows + length (select (is_of rule_id) rows)
  unfolding mark sum_by
  count-mark_sent now [] = refl
  count-mark_sent now (n ∷ rows) =
      ground (arith, pending_not_sent n.status, count-mark_sent now rows)

  marked-IsReported :
      (p : Notification → Bool) (f : Notification → Notification)
      → ((n : Notification) → ((f n).rule_id ≡ n.rule_id) × ((f n).payload ≡ n.payload))
      → ((n : Notification) → is_sent (f n).status ≡ false)
      → (rows : List Notification) → IsReported rows (mark rule_id p f rows, 0)
  marked-IsReported p f keeps unsent rows = record {
    kept = mark-AllKept p f keeps rows;
    reported = omega (arith, count-mark p f unsent rows);
  }

deliver-IsReported :
    (now : ℕ) (rule : NotificationRule) (rows : List Notification) (error : Option Text)
    → IsReported rows (deliver now rule rows error)
unfolding deliver
deliver-IsReported now rule rows (some error) =
    marked-IsReported rule.rule_id everyone (as_failed error) (λ n. (refl, refl)) (λ n. refl) rows
deliver-IsReported now rule rows none = record {
  kept = mark-AllKept rule.rule_id everyone (as_sent now) (λ n. (refl, refl)) rows;
  reported = count-mark_sent rule.rule_id now rows;
}

module _ (d : Delivery) (now : ℕ) where
  skipping-IsReported :
      (rule_id : Text) (p : Notification → Bool) (rows : List Notification)
      → IsReported rows (mark rule_id p as_skipped rows, 0)
  skipping-IsReported rule_id p rows =
      marked-IsReported rule_id p as_skipped (λ n. (refl, refl)) (λ n. refl) rows

  dispatch_configured-IsReported :
      (rule : NotificationRule) (rows : List Notification)
      → IsReported rows (dispatch_configured d now rule rows)
  unfolding dispatch_configured
  dispatch_configured-IsReported rule rows =
      let waiting = select (is_of rule.rule_id) rows in
      let recent = select (in_window now rule.window_minutes) waiting in
      let same = unchanged-IsReported rows in
      if-IsReported rows (ltb 1 rule.min_count && ltb (length recent) rule.min_count) _ _
        (skipping-IsReported rule.rule_id (λ n. not (in_window now rule.window_minutes n)) rows)
        (if-IsReported rows (any (cools_down now rule) rows) _ _ same (
          if-IsReported rows (is_empty waiting) _ _ same
            (deliver-IsReported now rule rows (d.send rule waiting))))

  dispatch_rule-IsReported :
      (rows : List Notification) (o : Option NotificationRule)
      → IsReported rows (dispatch_rule d now rows o)
  unfolding dispatch_rule
  dispatch_rule-IsReported rows none = unchanged-IsReported rows
  dispatch_rule-IsReported rows (some rule) =
      let off = not rule.enabled || is_unavailable d.available_types (managed_insight_type rule) in
      if-IsReported rows off _ _ (skipping-IsReported rule.rule_id everyone rows) (
        if-IsReported rows (not (d.is_configured rule.channel)) _ _ (unchanged-IsReported rows)
          (dispatch_configured-IsReported rule rows))

  dispatch_all-IsReported :
      (rules : List NotificationRule) (ids : List Text) (rows : List Notification)
      → IsReported rows (dispatch_all d now rules ids rows)
  unfolding dispatch_all
  dispatch_all-IsReported rules [] rows = unchanged-IsReported rows
  dispatch_all-IsReported rules (id ∷ ids) rows =
      let o = first (λ r. r.rule_id == id) rules in
      let step = dispatch_rule-IsReported rows o in
      let rest = dispatch_all-IsReported rules ids (dispatch_rule d now rows o).0 in
      record {
        kept = AllKept-trans rows _ _ step.kept rest.kept;
        reported = omega (arith, step.reported, rest.reported);
      }

  -- A dispatch reports exactly how many notifications it sent, and changes no notification that was
  -- sent, failed or skipped before, nor the rule and the payload of any.
  pub dispatch_pending_notifications-IsReported :
      (notifications_enabled : Bool) (rules : List NotificationRule) (rows : List Notification)
      → IsReported rows (dispatch_pending_notifications d notifications_enabled now rules rows)
  unfolding dispatch_pending_notifications
  dispatch_pending_notifications-IsReported notifications_enabled rules rows =
      if-IsReported rows _ _ _ (unchanged-IsReported rows) (dispatch_all-IsReported rules _ rows)
