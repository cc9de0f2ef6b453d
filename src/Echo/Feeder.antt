-- ===== src/Echo/Feeder.antt =====
-- examples/echo/src/main.rs: the in-process transport, which feeds texts and collects the echoes.
use msrs.Shared.{
  ℕ, zero, suc, ◌≤◌, ◌≡◌, refl, sym, ap, ◌∙◌, ◌↔◌, inl, inr, List, [], ◌∷◌, ◌++◌, append-nil,
  append_assoc, map, String, Result, ok, err, ok?, length, Result-cases, arith,
}
use msrs.Effects.Laws.{to_list}
use msrs.Channel.{Channel}
use msrs.Channel.Blocking.{Blocking}
use msrs.Tasks.Egress.Delivery.{Delivers, send-Delivers}
use msrs.Echo.{EchoMsg}
use msrs.Echo.Service.Replayed.{body_of}

-- `EchoMsg::new`.
abbrev pub new_msg : String → EchoMsg
new_msg s = record { body = s }

-- The sending end `results` is passed beside it.
pub record Feeder : Type 0 where
  pub inputs : List String

module _ (ch : Channel EchoMsg) (waits : Blocking ch) (texts : Channel String) where
  open waits use {recv_timeout, recv_timeout-contents}

  -- The first loop.
  unfoldable pub feed_all : List String → ch.Chan → Result String (Unit {0}) × ch.Chan
  feed_all [] tx_in = (ok tt, tx_in)
  feed_all (msg ∷ msgs) tx_in =
      let (sent, tx_in') = ch.send tx_in (new_msg msg) in
      let rest = feed_all msgs tx_in' in elim sent [ ok _ ↦ rest | err e ↦ (err e, tx_in') ]

  -- The second loop, which runs once for each of the inputs.
  unfoldable pub collect_echoes :
      ℕ → ch.Chan → texts.Chan → Result String (Unit {0}) × ch.Chan × texts.Chan
  collect_echoes zero rx_out results = (ok tt, rx_out, results)
  collect_echoes (suc n) rx_out results =
      let (received, rx_out') = recv_timeout 5 rx_out in
      elim received [
        | ok echoed ↦
            let (sent, results') = texts.send results echoed.body in
            elim sent [
              | ok _ ↦ collect_echoes n rx_out' results'
              | err e ↦ (err e, rx_out', results')
            ]
        | err _ ↦ (err "timed out waiting for echo", rx_out', results)
      ]

  -- `Feeder::run`; `?` leaves it when feeding fails.
  unfoldable pub run :
      Feeder
      → ch.Chan
      → ch.Chan
      → texts.Chan
      → Result String (Unit {0}) × ch.Chan × ch.Chan × texts.Chan
  run f rx_out tx_in results =
      let (fed, tx_in') = feed_all f.inputs tx_in in
      let (collected, rx_out', results') = collect_echoes (length f.inputs) rx_out results in
      elim fed [
        | ok _ ↦ (collected, rx_out', tx_in', results')
        | err e ↦ (err e, rx_out, tx_in', results)
      ]

  feed_all-Delivers :
      (msgs : List String) (tx : ch.Chan)
      → Delivers ch tx
      → ((feed_all msgs tx).0 ≡ ok tt)
        × (ch.contents (feed_all msgs tx).1 ≡ ch.contents tx ++ map new_msg msgs)
  unfolding feed_all
  feed_all-Delivers [] tx d = (refl, sym (append-nil (ch.contents tx)))
  feed_all-Delivers (msg ∷ msgs) tx d =
      let (sent, held, d') = send-Delivers ch tx (new_msg msg) d in
      let (fed, all) = feed_all-Delivers msgs (ch.send tx (new_msg msg)).1 d' in
      rw (sent, feed_all)
        (
          fed,
          all
              ∙ ap (λ l. l ++ map new_msg msgs) held
              ∙ append_assoc (ch.contents tx) (new_msg msg ∷ []) (map new_msg msgs),
        )

  -- What collecting leaves: the messages received, all of them forwarded, and n when it succeeds.
  pub record Collects (n : ℕ) (rx rx' : ch.Chan) (results results' : texts.Chan)
      (outcome : Result String (Unit {0})) : Type 0 where
    pub received : List EchoMsg
    pub sent : List EchoMsg
    pub taken : ch.contents rx ++ sent ≡ received ++ ch.contents rx'
    pub forwarded : texts.contents results' ≡ texts.contents results ++ map body_of received
    pub few : length received ≤ n
    pub complete : (outcome ≡ ok tt) ↔ (length received ≡ n)

  received-ok :
      (rx : ch.Chan) (v : EchoMsg)
      → (recv_timeout 5 rx).0 ≡ ok v
      → (sent : List EchoMsg) × (ch.contents rx ++ sent ≡ v ∷ ch.contents (recv_timeout 5 rx).1)
  received-ok rx v e =
      let (sent, kept) = recv_timeout-contents 5 rx in
      (sent, kept ∙ ap (λ r. to_list (ok? r) ++ ch.contents (recv_timeout 5 rx).1) e)

  received-err :
      (rx : ch.Chan) (t : waits.TimeoutError)
      → (recv_timeout 5 rx).0 ≡ err t
      → (sent : List EchoMsg) × (ch.contents rx ++ sent ≡ ch.contents (recv_timeout 5 rx).1)
  received-err rx t e =
      let (sent, kept) = recv_timeout-contents 5 rx in
      (sent, kept ∙ ap (λ r. to_list (ok? r) ++ ch.contents (recv_timeout 5 rx).1) e)

  abbrev CollectsFrom : ℕ → ch.Chan → texts.Chan → Type 0
  CollectsFrom n rx results =
      let (outcome, rx', results') = collect_echoes n rx results in
      Collects n rx rx' results results' outcome

  collect_next :
      (n : ℕ) (rx : ch.Chan) (results : texts.Chan) (v : EchoMsg)
      → (recv_timeout 5 rx).0 ≡ ok v
      → (texts.send results v.body).0 ≡ ok tt
      → collect_echoes (suc n) rx results
        ≡ collect_echoes n (recv_timeout 5 rx).1 (texts.send results v.body).1
  unfolding collect_echoes
  collect_next n rx results v e sent = rw (e, collect_echoes) (rw sent)

  collect_timeout :
      (n : ℕ) (rx : ch.Chan) (results : texts.Chan) (t : waits.TimeoutError)
      → (recv_timeout 5 rx).0 ≡ err t
      → collect_echoes (suc n) rx results
        ≡ (err "timed out waiting for echo", (recv_timeout 5 rx).1, results)
  unfolding collect_echoes
  collect_timeout n rx results t e = rw (e, collect_echoes)

  collect_echoes-Collects :
      (n : ℕ) (rx : ch.Chan) (results : texts.Chan)
      → Delivers texts results
      → CollectsFrom n rx results
  unfolding collect_echoes
  collect_echoes-Collects zero rx results d = record {
    received = [];
    sent = [];
    taken = append-nil (ch.contents rx);
    forwarded = sym (append-nil (texts.contents results));
    few = omega arith;
    complete = (λ h. refl, λ h. refl);
  }
  collect_echoes-Collects (suc n) rx results d = elim (Result-cases (recv_timeout 5 rx).0) [
    | inl (v, e) ↦
        let (sent, held, d') = send-Delivers texts results v.body d in
        let rx' = (recv_timeout 5 rx).1 in
        let results' = (texts.send results v.body).1 in
        let rest = collect_echoes-Collects n rx' results' d' in
        let (more, kept) = received-ok rx v e in
        let last = (collect_echoes n rx' results').1 in
        rw (collect_next n rx results v e sent) (record {
          received = v ∷ rest.received;
          sent = more ++ rest.sent;
          taken =
              sym (append_assoc (ch.contents rx) more rest.sent)
              ∙ ap (λ l. l ++ rest.sent) kept
              ∙ ap (◌∷◌ v) rest.taken;
          forwarded =
              rest.forwarded
              ∙ ap (λ l. l ++ map body_of rest.received) held
              ∙ append_assoc (texts.contents results) (v.body ∷ []) (map body_of rest.received);
          few = omega (arith, rest.few);
          complete =
              (λ h. omega (arith, rest.complete.0 h), λ h. rest.complete.1 (omega (arith, h)));
        })
    | inr (t, e) ↦
        let (more, kept) = received-err rx t e in
        rw (collect_timeout n rx results t e) (record {
          received = [];
          sent = more;
          taken = kept;
          forwarded = sym (append-nil (texts.contents results));
          few = omega arith;
          complete = (λ h. cc, λ h. absurd (omega (arith, h)));
        })
  ]

  run-fed :
      (f : Feeder) (rx_out tx_in : ch.Chan) (results : texts.Chan)
      → (feed_all f.inputs tx_in).0 ≡ ok tt
      → run f rx_out tx_in results ≡ (
          let (collected, rx_out', results') = collect_echoes (length f.inputs) rx_out results in
          (collected, rx_out', (feed_all f.inputs tx_in).1, results'))
  unfolding run
  run-fed f rx_out tx_in results e = rw (e, run)

  -- On channels without a bound whose receivers live, the transport sends every input, in order,
  -- before it collects; it forwards the bodies of the echoes it receives, in order, at most one for
  -- each input, and takes no more from its channel; and it succeeds exactly when it has forwarded as
  -- many echoes as there were inputs.
  pub run-Collects :
      (f : Feeder) (rx_out tx_in : ch.Chan) (results : texts.Chan)
      → Delivers ch tx_in
      → Delivers texts results
      → let (outcome, rx_out', tx_in', results') = run f rx_out tx_in results in
        (ch.contents tx_in' ≡ ch.contents tx_in ++ map new_msg f.inputs)
        × Collects (length f.inputs) rx_out rx_out' results results' outcome
  run-Collects f rx_out tx_in results d e =
      let (fed, all) = feed_all-Delivers f.inputs tx_in d in
      rw (run-fed f rx_out tx_in results fed)
        (all, collect_echoes-Collects (length f.inputs) rx_out results e)
