-- ===== src/Alerts/Outbox/Delivery.antt =====
-- What a delivery run attempts.
use mathlib.Core.Path.{subst}
use research_platform.Prelude.{
  ℕ, zero, suc, ◌+◌, ◌-◌, ◌*◌, ◌^◌, min, ◌≤◌, ◌<◌, ◌≡◌, refl, sym, ap, ◌∙◌, Bool, true, false,
  Bool-cases, ◌&&◌, ◌||◌, inl, inr, Option, none, some, List, [], ◌∷◌, ◌++◌, map, any, or_true,
  length, take, take_all, filter, length-filter, ltb, leb, leb→gt, leb→le, ◌==◌, arith,
}
use research_platform.Calendar.{one_minute}
use research_platform.Alerts.Outbox.Once.{
  IsWellFormed, id_count, id_count-filter, settled_count-append, settled_count-expiries,
}
use research_platform.Alerts.Outbox.{
  settled_count, Outbox, Alert, Attempt, DeliveryRun, DeliveryReport, Sent, accepted, refused,
  unsettled, overdue, expiries, backed_off, is_due, last_failed_at, failure_count, alert_expiry,
  backoff, deliver_loop, deliver_pending_alerts, counted,
}

power_suc : (n : ℕ) → 2 ^ n ≤ 2 ^ suc n
power_suc n = omega arith

power_mono : (a b : ℕ) → a ≤ b → 2 ^ a ≤ 2 ^ b
power_mono a zero h = ground arith
power_mono a (suc b) h = elim (Bool-cases (leb a b)) [
  | inl below ↦ omega (arith, power_mono a b (leb→le _ _ below), power_suc b)
  | inr past ↦ let same : a ≡ suc b = omega (arith, h, leb→gt _ _ past) in rw same (omega arith)
]

-- A wait after a failure is at most 30 minutes long, and no shorter than the wait after fewer
-- failures.
pub backoff-bounds : (m n : ℕ) → m ≤ n → (backoff n ≤ 30 * one_minute) × (backoff m ≤ backoff n)
unfolding backoff
backoff-bounds zero zero h = (omega arith, omega arith)
backoff-bounds zero (suc n) h = (omega arith, omega arith)
backoff-bounds (suc m) zero h = absurd (omega arith)
backoff-bounds (suc m) (suc n) h =
    let more : 2 ^ min m 10 ≤ 2 ^ min n 10 = power_mono (min m 10) (min n 10) (omega arith) in
    (omega arith, omega arith)

abbrev attempt_ids : List Attempt → List ℕ
attempt_ids ts = map (λ t. t.alert_id) ts

abbrev alert_ids : List Alert → List ℕ
alert_ids bs = map (λ a. a.id) bs

-- The clock never reaches the budget.
abbrev IsInBudget : DeliveryRun → Type 0
IsInBudget d = (turn : ℕ) → d.monotonic turn - d.started < d.budget

deliver_loop-attempt_ids :
    (d : DeliveryRun) (now turn : ℕ) (bs : List Alert) (r : DeliveryReport)
    → IsInBudget d
    → attempt_ids (deliver_loop d now turn bs r).0 ≡ alert_ids bs
unfolding deliver_loop
deliver_loop-attempt_ids d now turn [] r h = refl
deliver_loop-attempt_ids d now turn (a ∷ bs) r h =
    let rest = deliver_loop-attempt_ids d now (suc turn) bs (counted (d.send turn a) r) h in
    let going : leb d.budget (d.monotonic turn - d.started) ≡ false = ground (arith, h turn) in
    rw going (ap (λ ids. a.id ∷ ids) rest)

abbrev pub attempts_id : ℕ → List Attempt → Bool
attempts_id id ts = any (λ t. t.alert_id == id) ts

any-map :
    {A : Type 0} (key : A → ℕ) (id : ℕ) (xs : List A)
    → any (λ n. n == id) (map key xs) ≡ any (λ x. key x == id) xs
any-map key id [] = refl
any-map key id (x ∷ xs) = ap (λ rest. (key x == id) || rest) (any-map key id xs)

any-filter :
    (test : Alert → Bool) (before after : List Alert) (a : Alert)
    → test a ≡ true
    → any (λ b. b.id == a.id) (filter test (before ++ a ∷ after)) ≡ true
any-filter test [] after a h = let same : (a.id == a.id) ≡ true = ground arith in rw (h, same) refl
any-filter test (b ∷ before) after a h = elim (Bool-cases (test b)) [
  | inl kept ↦ rw (kept, any-filter test before after a h) (or_true _)
  | inr out ↦ rw out (any-filter test before after a h)
]

-- An alert that a filter drops counts for the list but not for what is kept.
id_count-dropped :
    (test : Alert → Bool) (before after : List Alert) (a : Alert)
    → test a ≡ false
    → suc (id_count a.id (filter test (before ++ a ∷ after))) ≤ id_count a.id (before ++ a ∷ after)
id_count-dropped test [] after a h =
    let same : (a.id == a.id) ≡ true = ground arith in
    rw (h, same) (omega (arith, id_count-filter a.id test after))
id_count-dropped test (b ∷ before) after a h =
    ground (arith, id_count-dropped test before after a h)

-- Expiries are no failures.
last_failed_at-expiries :
    (id now : ℕ) (ts : List Attempt) (bs : List Alert)
    → last_failed_at id (ts ++ expiries now bs) ≡ last_failed_at id ts
last_failed_at-expiries id now [] [] = refl
last_failed_at-expiries id now [] (b ∷ bs) = ground (arith, last_failed_at-expiries id now [] bs)
last_failed_at-expiries id now (t ∷ ts) bs = rw (last_failed_at-expiries id now ts bs) refl

-- The last failure of the alert, if there is one, is 30 minutes old.
abbrev pub IsRested : (now : ℕ) → Option ℕ → Type 0
IsRested now none = Unit
IsRested now (some at) = at + 30 * one_minute ≤ now

backed_off-IsRested :
    (now : ℕ) (last : Option ℕ) (failures : ℕ)
    → IsRested now last
    → backed_off now last failures ≡ true
backed_off-IsRested now none failures h = refl
backed_off-IsRested now (some at) failures h =
    ground (arith, (backoff-bounds failures failures (omega arith)).0, h)

-- An alert that is young enough is not among those that expire.
id_count-overdue :
    (cutoff : ℕ) (o : Outbox) (before after : List Alert) (a : Alert)
    → IsWellFormed o
    → o.alerts ≡ before ++ a ∷ after
    → cutoff ≤ a.created_at
    → id_count a.id (overdue cutoff o) ≡ 0
id_count-overdue cutoff o before after a wf split young =
    let test : Alert → Bool = λ b. ltb b.created_at cutoff && unsettled o.attempts b in
    let out : test a ≡ false = ground (arith, young) in
    let fewer =
      subst (λ bs. suc (id_count a.id (filter test bs)) ≤ id_count a.id bs) (sym split)
        (id_count-dropped test before after a out) in
    omega (arith, fewer, wf.ids_unique a.id)

unsettled-expiries :
    (now : ℕ) (ts : List Attempt) (bs : List Alert) (id : ℕ)
    → settled_count id ts ≡ 0
    → id_count id bs ≡ 0
    → (settled_count id (ts ++ expiries now bs) == 0) ≡ true
unsettled-expiries now ts bs id fresh unlisted =
    rw
      (
        settled_count-append id ts (expiries now bs),
        settled_count-expiries id now bs,
        fresh,
        unlisted,
      )
      (ground arith)

-- In a well-formed outbox, an alert that is not settled, is no older than 24 hours and has not
-- failed within the last 30 minutes is attempted by a delivery run whose limit has room for every
-- alert and whose clock stays within the budget, whatever the sink does with the others.
pub deliver_pending_alerts-attempts :
    (d : DeliveryRun) (limit now : ℕ) (o : Outbox) (before after : List Alert) (a : Alert)
    → IsWellFormed o
    → o.alerts ≡ before ++ a ∷ after
    → length o.alerts ≤ limit
    → ((turn : ℕ) → d.monotonic turn - d.started < d.budget)
    → settled_count a.id o.attempts ≡ 0
    → now - alert_expiry ≤ a.created_at
    → IsRested now (last_failed_at a.id o.attempts)
    → (made : List Attempt) × ((deliver_pending_alerts d limit now o).0.attempts
        ≡ (o.attempts ++ expiries now (overdue (now - alert_expiry) o)) ++ made)
      × (attempts_id a.id made ≡ true)
unfolding deliver_pending_alerts
deliver_pending_alerts-attempts d limit now o before after a wf split room clock fresh young
      rested =
    let cutoff : ℕ = now - alert_expiry in
    let lapsed : List Alert = overdue cutoff o in
    let ts : List Attempt = o.attempts ++ expiries now lapsed in
    let test : Alert → Bool = is_due cutoff now ts in
    let due : List Alert = filter test o.alerts in
    let in_time : leb cutoff a.created_at ≡ true = ground (arith, young) in
    let open_still =
      unsettled-expiries now o.attempts lapsed a.id fresh
        (id_count-overdue cutoff o before after a wf split young) in
    let over =
      backed_off-IsRested now (last_failed_at a.id ts) (failure_count a.id ts)
        (subst (IsRested now) (sym (last_failed_at-expiries a.id now o.attempts lapsed)) rested) in
    let kept : any (λ b. b.id == a.id) due ≡ true =
      subst (λ bs. any (λ b. b.id == a.id) (filter test bs) ≡ true) (sym split)
        (any-filter test before after a (rw (in_time, open_still, over) refl)) in
    let all : take limit due ≡ due =
      take_all limit due (omega (arith, room, length-filter test o.alerts)) in
    (
      _,
      refl,
      sym (any-map (λ t. t.alert_id) a.id _)
          ∙ (ap (any (λ n. n == a.id)) (deliver_loop-attempt_ids d now 0 (take limit due) _ clock)
              ∙ (any-map (λ b. b.id) a.id (take limit due)
                  ∙ (ap (any (λ b. b.id == a.id)) all ∙ kept))),
    )

counted-total :
    (sent : Sent) (r : DeliveryReport)
    → ((counted sent r).delivered + (counted sent r).failed ≡ suc (r.delivered + r.failed))
      × ((counted sent r).expired ≡ r.expired)
counted-total accepted r = (omega arith, refl)
counted-total (refused _ _) r = (omega arith, refl)

deliver_loop-length :
    (d : DeliveryRun) (now turn : ℕ) (bs : List Alert) (r : DeliveryReport)
    → length (deliver_loop d now turn bs r).0 ≤ length bs
unfolding deliver_loop
deliver_loop-length d now turn [] r = omega arith
deliver_loop-length d now turn (a ∷ bs) r =
    ground (arith, deliver_loop-length d now (suc turn) bs (counted (d.send turn a) r))

length-take-bound : {A : Type 0} (n : ℕ) (xs : List A) → length (take n xs) ≤ n
length-take-bound zero xs = omega arith
length-take-bound (suc n) [] = omega arith
length-take-bound (suc n) (x ∷ xs) = omega (arith, length-take-bound n xs)

-- The attempts of the loop are those that the report counts.
deliver_loop-counted :
    (d : DeliveryRun) (now turn : ℕ) (bs : List Alert) (r : DeliveryReport)
    → let report : DeliveryReport = (deliver_loop d now turn bs r).1 in
      let made : List Attempt = (deliver_loop d now turn bs r).0 in
      (report.delivered + report.failed ≡ length made + (r.delivered + r.failed))
      × (report.expired ≡ r.expired)
unfolding deliver_loop
deliver_loop-counted d now turn [] r = (omega arith, refl)
deliver_loop-counted d now turn (a ∷ bs) r =
    let sent : Sent = d.send turn a in
    let (sums, same) = deliver_loop-counted d now (suc turn) bs (counted sent r) in
    let (one, expired) = counted-total sent r in
    elim (Bool-cases (leb d.budget (d.monotonic turn - d.started))) [
      | inl done ↦ rw done (omega arith, refl)
      | inr going ↦ rw going (omega (arith, sums, one), same ∙ expired)
    ]

-- A delivery run adds the attempts that expire the overdue alerts, as many as it reports, and then
-- as many as it reports delivered and failed together, which is at most the limit.
pub deliver_pending_alerts-counted :
    (d : DeliveryRun) (limit now : ℕ) (o : Outbox)
    → (made : List Attempt) × ((deliver_pending_alerts d limit now o).0.attempts
        ≡ (o.attempts ++ expiries now (overdue (now - alert_expiry) o)) ++ made)
      × ((deliver_pending_alerts d limit now o).1.delivered
            + (deliver_pending_alerts d limit now o).1.failed
          ≡ length made)
      × (length made ≤ limit)
      × ((deliver_pending_alerts d limit now o).1.expired ≡ length (overdue (now - alert_expiry) o))
unfolding deliver_pending_alerts
deliver_pending_alerts-counted d limit now o =
    let due : List Alert = take limit (
      filter
        (is_due (now - alert_expiry) now
          (o.attempts ++ expiries now (overdue (now - alert_expiry) o)))
        o.alerts) in
    let start : DeliveryReport = record {
      delivered = 0;
      failed = 0;
      expired = length (overdue (now - alert_expiry) o);
      budget_exhausted = false;
    } in
    let (sums, same) = deliver_loop-counted d now 0 due start in
    let fewer : length (deliver_loop d now 0 due start).0 ≤ length due =
      deliver_loop-length d now 0 due start in
    (_, refl, omega (arith, sums), omega (arith, fewer, length-take-bound limit _), same)
