-- ===== src/Watchdog/Pulse.antt =====
-- examples/watchdog/src/main.rs: the sending thread of the transport, without its sleeps.
use msrs.Shared.{
  ℕ, zero, suc, ◌≡◌, sym, ap, ◌∙◌, List, [], ◌∷◌, ◌++◌, append-nil, append_assoc, ok, err,
}
use msrs.Channel.{Channel}
use msrs.Tasks.Egress.Delivery.{Delivers, send-Delivers}
use msrs.Watchdog.{Feed}

-- `Feed(n)` for each n of a range, by its start and its length.
abbrev pub feeds : ℕ → ℕ → List Feed
feeds n zero = []
feeds n (suc count) = record { sequence = n } ∷ feeds (suc n) count

module _ (ch : Channel Feed) where
  -- The closure `burst`, which returns at the first send that fails.
  unfoldable pub burst : List Feed → ch.Chan → ch.Chan
  burst [] tx_in = tx_in
  burst (f ∷ fs) tx_in =
      let (sent, tx_in') = ch.send tx_in f in
      let rest = burst fs tx_in' in elim sent [ ok _ ↦ rest | err e ↦ tx_in' ]

  -- The thread `feeder`: the second burst is tried whatever became of the first.
  unfoldable pub feeder : ch.Chan → ch.Chan
  unfolding burst
  feeder tx_in = burst (feeds 5 3) (burst (feeds 0 5) tx_in)

  burst-ok :
      (f : Feed) (fs : List Feed) (tx : ch.Chan)
      → (ch.send tx f).0 ≡ ok tt
      → burst (f ∷ fs) tx ≡ burst fs (ch.send tx f).1
  unfolding burst
  burst-ok f fs tx e = rw (e, burst)

  burst-Delivers :
      (fs : List Feed) (tx : ch.Chan)
      → Delivers ch tx
      → (ch.contents (burst fs tx) ≡ ch.contents tx ++ fs) × Delivers ch (burst fs tx)
  unfolding burst
  burst-Delivers [] tx d = (sym (append-nil (ch.contents tx)), d)
  burst-Delivers (f ∷ fs) tx d =
      let (sent, held, d') = send-Delivers ch tx f d in
      let (all, d'') = burst-Delivers fs (ch.send tx f).1 d' in
      rw (burst-ok f fs tx sent)
        (all ∙ ap (λ l. l ++ fs) held ∙ append_assoc (ch.contents tx) (f ∷ []) fs, d'')

  -- While the DAG lives, the thread sends the feeds numbered from 0 to 7, in order.
  pub feeder-Delivers :
      (tx : ch.Chan) → Delivers ch tx → ch.contents (feeder tx) ≡ ch.contents tx ++ feeds 0 8
  unfolding feeder
  feeder-Delivers tx d =
      let (first, d') = burst-Delivers (feeds 0 5) tx d in
      (burst-Delivers (feeds 5 3) (burst (feeds 0 5) tx) d').0
      ∙ ap (λ l. l ++ feeds 5 3) first
      ∙ append_assoc (ch.contents tx) (feeds 0 5) (feeds 5 3)
