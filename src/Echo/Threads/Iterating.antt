-- ===== src/Echo/Threads/Iterating.antt =====
-- examples/echo/src/main.rs: an iteration between the moves of the driver thread.
use msrs.Shared.{
  ℕ, suc, ◌≡◌, refl, sym, ap, ◌∙◌, Option, none, some, List, [], ◌∷◌, ◌++◌, append-nil,
  append_assoc, map, String, ok, err, head?, tail,
}
use msrs.Copper.{CuMsg, CuResult, Clock, Tov}
use msrs.Effects.Laws.{to_list}
use msrs.Channel.{Channel}
use msrs.Tasks.{ingress_step}
use msrs.Tasks.Ingress
use msrs.Tasks.Egress.Delivery.{Delivers}
use msrs.Echo.{EchoMsg, Gate}
use msrs.Echo.Feeder.{new_msg}
use msrs.Echo.Numbering.{answer, count_after}
use msrs.Echo.Service.{Turn, EchoService, run_one_iteration}
use msrs.Echo.Service.Iteration.{echoed, trigger_at, iteration-Iterates}
use msrs.Echo.Threads.{
  Progress, feeding, collecting, ended, iterating, System, iterate, after_iteration,
}
use msrs.Echo.Threads.Numbered.{count_of, numbered, numbered-append, count_of-append}
use msrs.Echo.Threads.Flow.{unfed, gathered, InFlow, OutFlow, InvAt, Inv}

-- Taking the oldest message that is queued, if there is one.
taken_next :
    (taken queued rest : List EchoMsg)
    → (taken ++ to_list (head? queued)) ++ (tail queued ++ rest) ≡ taken ++ (queued ++ rest)
taken_next taken [] rest = ap (λ l. l ++ rest) (append-nil taken)
taken_next taken (v ∷ vs) rest = append_assoc taken (v ∷ []) (vs ++ rest)

numbered_next :
    (taken : List EchoMsg) (o : Option EchoMsg) (now count : ℕ)
    → count ≡ count_of 0 taken
    → numbered 0 (taken ++ to_list o)
      ≡ numbered 0 taken ++ to_list (answer count (trigger_at o now))
numbered_next taken none now count e =
    ap (numbered 0) (append-nil taken) ∙ sym (append-nil (numbered 0 taken))
numbered_next taken (some v) now count e = rw e (numbered-append 0 taken (v ∷ []))

count_next :
    (taken : List EchoMsg) (o : Option EchoMsg) (now count : ℕ)
    → count ≡ count_of 0 taken
    → count_after count (trigger_at o now) ≡ count_of 0 (taken ++ to_list o)
count_next taken none now count e = e ∙ ap (count_of 0) (sym (append-nil taken))
count_next taken (some v) now count e = rw e (sym (count_of-append 0 taken (v ∷ [])))

module _ (gate : Gate) (ch : Channel EchoMsg) (texts : Channel String) (clock : Clock)
    (slot : CuMsg EchoMsg) (inputs : List String) where
  -- An iteration that panics has taken its message all the same.
  after_iteration-InFlow :
      (n : ℕ) (o : CuResult (Unit {0}) × CuResult (Unit {0})) (taken : List EchoMsg) (p : Progress)
      (rx : ch.Chan)
      → InFlow ch texts inputs taken (iterating n) p rx
      → InFlow ch texts inputs taken (after_iteration gate ch texts clock slot n o) p rx
  after_iteration-InFlow n (ok _, ok _) taken p rx h = h
  after_iteration-InFlow n (ok _, err e) taken p rx h =
      (ch.contents rx ++ map new_msg (unfed p), h.0)
  after_iteration-InFlow n (err e, _) taken p rx h = (ch.contents rx ++ map new_msg (unfed p), h.0)

  gathered-after_iteration :
      (n : ℕ) (o : CuResult (Unit {0}) × CuResult (Unit {0}))
      → gathered (after_iteration gate ch texts clock slot n o) ≡ []
  gathered-after_iteration n (ok _, ok _) = refl
  gathered-after_iteration n (ok _, err e) = refl
  gathered-after_iteration n (err e, _) = refl

  run_one_iteration-open :
      (s : EchoService gate ch) (t : Turn ch clock slot)
      → Delivers ch (t.arrive s.rx)
      → Delivers ch (run_one_iteration gate ch clock slot s t).0.rx
  unfolding run_one_iteration Ingress.process ingress_step
  run_one_iteration-open s t d =
      (ch.is_open-try_recv (t.arrive s.rx) ∙ d.0, ch.capacity-try_recv (t.arrive s.rx) ∙ d.1)

  -- While the thread runs, the answer to the message taken is queued; after its end it may be lost.
  answered-OutFlow :
      (p : Progress) (taken received : List EchoMsg) (o : Option EchoMsg) (now count : ℕ)
      (tx tx' : ch.Chan)
      → count ≡ count_of 0 taken
      → (Delivers ch tx
          → (ch.contents tx' ≡ ch.contents tx ++ to_list (answer count (trigger_at o now)))
            × Delivers ch tx')
      → OutFlow ch texts inputs taken received p tx
      → OutFlow ch texts inputs (taken ++ to_list o) received p tx'
  answered-OutFlow p taken received o now count tx tx' e sends h = by_progress p h
    where
      next :
          numbered 0 (taken ++ to_list o)
          ≡ numbered 0 taken ++ to_list (answer count (trigger_at o now))
      next = numbered_next taken o now count e

      queued :
          (received ++ ch.contents tx ≡ numbered 0 taken) × Delivers ch tx
          → (received ++ ch.contents tx' ≡ numbered 0 (taken ++ to_list o)) × Delivers ch tx'
      queued (all, d) =
          let (held, d') = sends d in
          (
            ap (λ l. received ++ l) held
                ∙ sym (
                    append_assoc received (ch.contents tx)
                      (to_list (answer count (trigger_at o now))))
                ∙ ap (λ l. l ++ to_list (answer count (trigger_at o now))) all
                ∙ sym next,
            d',
          )

      by_progress :
          (q : Progress)
          → OutFlow ch texts inputs taken received q tx
          → OutFlow ch texts inputs (taken ++ to_list o) received q tx'
      by_progress (feeding msgs) k = queued k
      by_progress (collecting n) k = queued k
      by_progress (ended outcome) (rest, k) = (
        rest ++ to_list (answer count (trigger_at o now)),
        sym (append_assoc received rest (to_list (answer count (trigger_at o now))))
            ∙ ap (λ l. l ++ to_list (answer count (trigger_at o now))) k
            ∙ sym next,
      )

  pub iterate-Inv :
      (s : System gate ch texts) (n : ℕ) (t : Turn ch clock slot)
      → InvAt ch texts inputs s.feeder
          (iterating (suc n))
          s.service.rx
          s.service.tx
          (echoed s.service)
          s.results
      → Inv ch texts inputs (iterate gate ch texts clock slot n t s)
  unfolding iterate
  iterate-Inv s n t inv =
      let quiet = record t { arrive = λ c. c } in
      let i = iteration-Iterates gate ch clock slot (λ (tov : Tov). "") s.service quiet in
      let o = head? (ch.contents s.service.rx) in
      let now = (clock.now t.ingress_ctx).0 in
      let s' = (run_one_iteration gate ch clock slot s.service quiet).0 in
      let outcome = (run_one_iteration gate ch clock slot s.service quiet).2 in
      let same = ap (answer (echoed s.service)) i.found in
      record {
        taken = inv.taken ++ to_list o;
        received = inv.received;
        inflow = after_iteration-InFlow n outcome (inv.taken ++ to_list o) s.feeder s'.rx (
          ap (λ l. (inv.taken ++ to_list o) ++ (l ++ map new_msg (unfed s.feeder))) i.left
              ∙ taken_next inv.taken (ch.contents s.service.rx) (map new_msg (unfed s.feeder))
              ∙ inv.inflow.0,
          run_one_iteration-open s.service quiet inv.inflow.1,
        );
        outflow =
            answered-OutFlow s.feeder inv.taken inv.received o now (echoed s.service) s.service.tx
              s'.tx inv.counted
              (λ d.
                (i.sent d ∙ ap (λ a. ch.contents s.service.tx ++ to_list a) same, i.open_still d))
              inv.outflow;
        tally = inv.tally;
        counted =
            i.counted
            ∙ ap (count_after (echoed s.service)) i.found
            ∙ count_next inv.taken o now (echoed s.service) inv.counted;
        passed_on =
            inv.passed_on
            ∙ ap (λ l. l ++ texts.contents s.results) (sym (gathered-after_iteration n outcome));
        delivering = inv.delivering;
      }
