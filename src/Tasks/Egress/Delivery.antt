-- ===== src/Tasks/Egress/Delivery.antt =====
-- crates/msrs-transport/src/tasks.rs: what the sinks deliver.
use msrs.Shared.{
  ◌≡◌, refl, sym, ap, ◌∙◌, true, false, Option, none, some, subst, List, [], ◌∷◌, ◌++◌, append-nil,
  append_assoc, String, ok, err, map_err, length,
}
use msrs.Copper.{CuMsg}
use msrs.Channel.{Channel, HasRoom}
use msrs.Fsm.Batch.{Batch}
use msrs.Tasks.{egress_step}
use msrs.Effects.Laws.{to_list}
use msrs.Tasks.Egress.{process, send_each, send_batch, process_batch}

abbrev pub batch_values : {T : Type 0} → Option (Batch T) → List T
batch_values none = []
batch_values (some b) = b.values

module _ {T : Type 0} (ch : Channel T) where
  -- An unbounded channel whose receiver lives: every send goes through.
  abbrev pub Delivers : ch.Chan → Type 0
  Delivers c = (ch.is_open c ≡ true) × (ch.capacity c ≡ none)

  pub send-Delivers :
      (tx : ch.Chan) (v : T)
      → Delivers tx
      → let (sent, tx') = ch.send tx v in
        (sent ≡ ok tt) × (ch.contents tx' ≡ ch.contents tx ++ v ∷ []) × Delivers tx'
  send-Delivers tx v (alive, free) =
      let (sent, held, alive', cap) =
        ch.send-open tx v alive (subst (λ o. HasRoom o (length (ch.contents tx))) (sym free) tt) in
      (sent, held, (alive', cap ∙ free))

  egress_step-Delivers :
      (tx : ch.Chan) (o : Option T)
      → Delivers tx
      → let (sent, tx') = egress_step ch tx o in
        (sent ≡ ok tt) × (ch.contents tx' ≡ ch.contents tx ++ to_list o) × Delivers tx'
  unfolding egress_step
  egress_step-Delivers tx none d = (refl, sym (append-nil (ch.contents tx)), d)
  egress_step-Delivers tx (some v) d = send-Delivers tx v d

  -- `EgressTask` on an unbounded channel whose receiver lives succeeds and appends the payload of
  -- its input, or nothing for an empty slot; the channel stays as it is otherwise.
  pub process-Delivers :
      (input : CuMsg T) (tx : ch.Chan) (msg : input.Msg)
      → Delivers tx
      → let (result, tx') = process ch input tx msg in
        (result ≡ ok tt)
        × (ch.contents tx' ≡ ch.contents tx ++ to_list (input.payload msg))
        × Delivers tx'
  unfolding process
  process-Delivers input tx msg d =
      let (sent, held, d') = egress_step-Delivers tx (input.payload msg) d in
      (ap (map_err (λ text. text)) sent, held, d')

  send_each-ok :
      (tx : ch.Chan) (v : T) (vs : List T)
      → (ch.send tx v).0 ≡ ok tt
      → send_each ch tx (v ∷ vs) ≡ send_each ch (ch.send tx v).1 vs
  unfolding send_each egress_step
  send_each-ok tx v vs e = rw (e, send_each)

  send_each-err :
      (tx : ch.Chan) (v : T) (vs : List T) (text : String)
      → (ch.send tx v).0 ≡ err text
      → send_each ch tx (v ∷ vs) ≡ (err text, (ch.send tx v).1)
  unfolding send_each egress_step
  send_each-err tx v vs text e = rw (e, send_each)

  send_each-Delivers :
      (tx : ch.Chan) (vs : List T)
      → Delivers tx
      → let (result, tx') = send_each ch tx vs in
        (result ≡ ok tt) × (ch.contents tx' ≡ ch.contents tx ++ vs) × Delivers tx'
  unfolding send_each
  send_each-Delivers tx [] d = (refl, sym (append-nil (ch.contents tx)), d)
  send_each-Delivers tx (v ∷ vs) d =
      let (sent, held, d') = send-Delivers tx v d in
      let (result, all, d'') = send_each-Delivers (ch.send tx v).1 vs d' in
      rw (send_each-ok tx v vs sent)
        (result, all ∙ ap (λ l. l ++ vs) held ∙ append_assoc (ch.contents tx) (v ∷ []) vs, d'')

  -- `BatchEgressTask` on an unbounded channel whose receiver lives succeeds and appends exactly the
  -- values of the batch, in order, and nothing for an empty slot; the channel stays as it is
  -- otherwise, so the next cycle delivers too.
  pub process_batch-Delivers :
      (input : CuMsg (Batch T)) (tx : ch.Chan) (msg : input.Msg)
      → Delivers tx
      → let (result, tx') = process_batch ch input tx msg in
        (result ≡ ok tt)
        × (ch.contents tx' ≡ ch.contents tx ++ batch_values (input.payload msg))
        × Delivers tx'
  unfolding process_batch
  process_batch-Delivers input tx msg d = delivers (input.payload msg)
    where
      delivers :
          (o : Option (Batch T))
          → let (result, tx') = send_batch ch tx o in
            (result ≡ ok tt) × (ch.contents tx' ≡ ch.contents tx ++ batch_values o) × Delivers tx'
      delivers none = (refl, sym (append-nil (ch.contents tx)), d)
      delivers (some b) = send_each-Delivers tx b.values d

  -- When the transport has hung up, a non-empty batch is an error (that of the channel) and nothing
  -- is put into the channel; the remaining values of the batch are not tried.
  pub process_batch-hung_up :
      (input : CuMsg (Batch T)) (tx : ch.Chan) (msg : input.Msg) (v : T) (vs : List T)
      → ch.is_open tx ≡ false
      → input.payload msg ≡ some (record { values = v ∷ vs })
      → let (result, tx') = process_batch ch input tx msg in
        ((text : String) × (result ≡ err text)) × (ch.contents tx' ≡ ch.contents tx)
  unfolding process_batch
  process_batch-hung_up input tx msg v vs closed e =
      let (refused, same) = ch.send-closed tx v closed in
      rw (e, process_batch)
        (rw (send_each-err tx v vs refused.0 refused.1) ((refused.0, refl), same))
