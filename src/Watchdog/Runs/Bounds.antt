-- ===== src/Watchdog/Runs/Bounds.antt =====
-- examples/watchdog/src/watchdog.rs: what the numbers of a run can be, for the machine's u64.
use msrs.Shared.{
  ℕ, ◌-◌, ◌<◌, ◌≤◌, ◌≡◌, refl, sym, ap, subst, Option, none, some, List, [], ◌∷◌, ◌++◌, length,
  length-append, ltb, ltb→lt, Bool-cases, inl, inr, All, arith,
}
use msrs.Trigger.{message}
use msrs.Fsm.{run_step_all}
use msrs.Tasks.{Cycle}
use msrs.Watchdog.{
  Feed, Alarm, armed_alarm, tripped_alarm, recovered_alarm, State, idle, armed, tripped, Gate,
  WatchdogMachine, watchdog, default, timeout_ns,
}
use msrs.Watchdog.Spec.{View, news, quiet, by_feeds, cycle_spec}
use msrs.Watchdog.Runs.{run, spec_run, at_rest, run-spec_run, Shows, step-Shows, default-Shows}

-- The silence that an alarm reports is longer than the timeout, and below the limit.
abbrev pub IsBetween : ℕ → ℕ → Alarm → Type 0
IsBetween timeout limit armed_alarm = Unit {0}
IsBetween timeout limit (tripped_alarm n) = (timeout < n) × (n < limit)
IsBetween timeout limit recovered_alarm = Unit {0}

-- Lists, one after the other.
abbrev pub all_of {ℓ} : {A : Type ℓ} → List (List A) → List A
all_of [] = []
all_of (l ∷ ls) = l ++ all_of ls

abbrev pub IsBelow : ℕ → Option ℕ → Type 0
IsBelow limit none = Unit {0}
IsBelow limit (some t) = t < limit

-- What some cycles put out, and the view that they leave.
abbrev InBounds : ℕ → ℕ → ℕ → View × List Alarm → Type 0
InBounds timeout limit n (v, alarms) =
    (length alarms ≤ n) × All (IsBetween timeout limit) alarms × IsBelow limit v.last_feed_ns

All-append {ℓ κ} :
    {A : Type ℓ} (P : A → Type κ) (xs ys : List A) → All P xs → All P ys → All P (xs ++ ys)
All-append P [] ys h k = k
All-append P (x ∷ xs) ys (p, h) k = (p, All-append P xs ys h k)

quiet-InBounds :
    (timeout limit now : ℕ) (s : State) (last : Option ℕ)
    → now < limit
    → IsBelow limit last
    → InBounds timeout limit 1 (quiet timeout (record { state = s; last_feed_ns = last }) now)
quiet-InBounds timeout limit now idle last h b = (omega arith, tt, b)
quiet-InBounds timeout limit now tripped last h b = (omega arith, tt, b)
quiet-InBounds timeout limit now armed none h b = (omega arith, tt, b)
quiet-InBounds timeout limit now armed (some t) h b = elim (Bool-cases (ltb timeout (now - t))) [
  | inl late ↦
      let silent = ltb→lt timeout (now - t) late in
      rw late (omega arith, ((silent, omega arith), tt), b)
  | inr early ↦ rw early (omega arith, tt, b)
]

fed-InBounds :
    (timeout limit now : ℕ) (s : State)
    → now < limit
    → InBounds timeout limit 1 (record { state = armed; last_feed_ns = some now }, news s)
fed-InBounds timeout limit now idle h = (omega arith, (tt, tt), h)
fed-InBounds timeout limit now armed h = (omega arith, tt, h)
fed-InBounds timeout limit now tripped h = (omega arith, (tt, tt), h)

cycle-InBounds :
    (timeout limit now : ℕ) (v : View) (fs : List Feed)
    → now < limit
    → IsBelow limit v.last_feed_ns
    → InBounds timeout limit 1 (by_feeds timeout v now fs)
cycle-InBounds timeout limit now v [] h b =
    quiet-InBounds timeout limit now v.state v.last_feed_ns h b
cycle-InBounds timeout limit now v (f ∷ fs) h b = fed-InBounds timeout limit now v.state h

spec_run-InBounds :
    (timeout limit : ℕ) (v : View) (cs : List (Cycle Feed))
    → All (λ c. c.now_ns < limit) cs
    → IsBelow limit v.last_feed_ns
    → InBounds timeout limit (length cs) (spec_run timeout v cs)
spec_run-InBounds timeout limit v [] h b = (omega arith, tt, b)
spec_run-InBounds timeout limit v (c ∷ cs) (now, h) b =
    let (one, fine, below) = cycle-InBounds timeout limit c.now_ns v c.events now b in
    let (v', alarms) = cycle_spec timeout v c in
    let (few, rest, last) = spec_run-InBounds timeout limit v' cs h below in
    (
      omega (arith, one, few, length-append {0} alarms (spec_run timeout v' cs).1),
      All-append (IsBetween timeout limit) alarms (spec_run timeout v' cs).1 fine rest,
      last,
    )

-- What a machine puts out in each of some cycles.
pub outputs : (gate : Gate) → WatchdogMachine gate → List (Cycle Feed) → List (List Alarm)
outputs gate m [] = []
outputs gate m (c ∷ cs) =
    let (m', outs) = run_step_all (watchdog gate) m (message c) in outs ∷ outputs gate m' cs

abbrev pub AtMostOne : List Alarm → Type 0
AtMostOne alarms = length alarms ≤ 1

outputs-AtMostOne :
    (gate : Gate) (m : WatchdogMachine gate) (timeout limit : ℕ) (v : View) (cs : List (Cycle Feed))
    → Shows gate m timeout v
    → All (λ c. c.now_ns < limit) cs
    → IsBelow limit v.last_feed_ns
    → All AtMostOne (outputs gate m cs)
unfolding outputs
outputs-AtMostOne gate m timeout limit v [] h now b = tt
outputs-AtMostOne gate m timeout limit v (c ∷ cs) h (now, later) b =
    let (shows, outs) = step-Shows gate m timeout v c h in
    let (one, fine, below) = cycle-InBounds timeout limit c.now_ns v c.events now b in
    let m' = (run_step_all (watchdog gate) m (message c)).0 in
    (
      subst AtMostOne (sym outs) one,
      outputs-AtMostOne gate m' timeout limit (cycle_spec timeout v c).0 cs shows later below,
    )

-- The outputs of the cycles, one after the other, are the alarms of the run.
pub run-outputs :
    (gate : Gate) (m : WatchdogMachine gate) (cs : List (Cycle Feed))
    → (run gate m cs).1 ≡ all_of (outputs gate m cs)
unfolding run outputs
run-outputs gate m [] = refl
run-outputs gate m (c ∷ cs) =
    let (m', outs) = run_step_all (watchdog gate) m (message c) in
    ap (λ l. outs ++ l) (run-outputs gate m' cs)

-- Over cycles whose times lie below a limit, such as 2^64, a fresh machine puts out at most one alarm
-- in each cycle, and these are all the alarms of the run; every silence that it reports is longer
-- than 50 ms and below the limit, and so is the time of the latest feed below it: with times of 64
-- bits, nothing overflows.
pub run-InBounds :
    (gate : Gate) (limit : ℕ) (cs : List (Cycle Feed))
    → All (λ c. c.now_ns < limit) cs
    → let (m, alarms) = run gate (default gate) cs in
      All AtMostOne (outputs gate (default gate) cs)
      × (alarms ≡ all_of (outputs gate (default gate) cs))
      × All (IsBetween timeout_ns limit) alarms
      × IsBelow limit m.ctx.store.last_feed_ns
run-InBounds gate limit cs h =
    let (viewed, alarms) = run-spec_run gate cs in
    let bounds = spec_run-InBounds timeout_ns limit at_rest cs h tt in
    (
      outputs-AtMostOne gate (default gate) timeout_ns limit at_rest cs (default-Shows gate) h tt,
      run-outputs gate (default gate) cs,
      subst (All (IsBetween timeout_ns limit)) (sym alarms) bounds.1,
      subst (λ (v : View). IsBelow limit v.last_feed_ns) (sym viewed) bounds.2,
    )
