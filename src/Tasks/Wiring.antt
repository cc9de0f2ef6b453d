-- ===== src/Tasks/Wiring.antt =====
-- crates/msrs-transport/src/tasks.rs over registry.rs: how a service hands the ends of its channels
-- to the tasks that the runtime builds later.
use msrs.Shared.{
  ℕ, suc, ◌≡◌, refl, sym, ap, ◌∙◌, ◌≢◌, Option, none, some, ok, returns, ◌>>=◌, map_err, false,
}
use msrs.Copper.{ComponentConfig}
use msrs.Registry
use msrs.Registry.{Types, Registry, Slots, Any, write, unbox}
use msrs.Registry.Laws.{write_self, write_ne, downcast_same, install_free, take_lem}
use msrs.Tasks.CycleIngress
use msrs.Tasks.CycleIngress.{CycleIngressTask, configured_batch, with_batch}
use msrs.Tasks.CycleIngress.Building.{new-build}
use msrs.Tasks.Ingress
use msrs.Tasks.Ingress.{IngressTask}
use msrs.Tasks.Egress
use msrs.Tasks.Egress.{EgressTask}

module _ (ty : Types) where
  unbox_same :
      (k : ty.Key) (c : ty.Code) (value : ty.Value c) (o : Option (Any ty))
      → o ≡ some (c, value)
      → unbox ty k c o ≡ ok value
  unfolding unbox
  unbox_same k c value o e = ap (unbox ty k c) e ∙ ap (map_err (λ _. _)) (downcast_same ty c value)

  -- A slot, after another one was written.
  write_beside :
      (s : Slots ty) (k j : ty.Key) (v o : Option (Any ty)) → k ≢ j → s j ≡ o → write ty s k v j ≡ o
  write_beside s k j v o apart e = write_ne ty s k j v apart ∙ e

  -- Two slots written and then emptied, both of which were empty before.
  emptied :
      (s : Slots ty) (a b j : ty.Key) (v w : Option (Any ty))
      → s a ≡ none
      → s b ≡ none
      → write ty (write ty (write ty (write ty s a v) b w) a none) b none j ≡ s j
  emptied s a b j v w free_a free_b = elim (ty.key_discrete b j) [
    | yes p ↦
        let two = write ty (write ty (write ty s a v) b w) a none in
        ap (write ty two b none) (sym p) ∙ write_self ty two b none ∙ sym free_b ∙ ap s p
    | no b_apart ↦ write_ne ty _ b j none b_apart ∙ elim (ty.key_discrete a j) [
      | yes p ↦
          let one = write ty (write ty s a v) b w in
          ap (write ty one a none) (sym p) ∙ write_self ty one a none ∙ sym free_a ∙ ap s p
      | no a_apart ↦
          write_ne ty _ a j none a_apart ∙ write_ne ty _ b j w b_apart ∙ write_ne ty s a j v a_apart
    ]
  ]

  module _ (source sink : ty.Key) (rx_code tx_code : ty.Code) where
    -- Two values parked in slots that are free, and taken back in turn.
    parked_both :
        (r : Registry ty) (j : ty.Key) (rx : ty.Value rx_code) (tx : ty.Value tx_code)
        → source ≢ sink
        → r.slots source ≡ none
        → r.slots sink ≡ none
        → let (r1, first) = Registry.install r source rx_code rx in
          let (r2, second) = Registry.install r1 sink tx_code tx in
          let (r3, taken) = Registry.take r2 source rx_code in
          let (r4, taken') = Registry.take r3 sink tx_code in
          (first ≡ returns tt)
          × (second ≡ returns tt)
          × (taken ≡ ok rx)
          × (taken' ≡ ok tx)
          × (r4.slots j ≡ r.slots j)
    parked_both r j rx tx apart free free' =
        let parked = some (rx_code, rx) in
        let s1 = write ty r.slots source parked in
        let s2 = write ty s1 sink (some (tx_code, tx)) in
        rw (install_free r source rx_code rx free) (
          rw
            (install_free (record r { slots = s1; held = false }) sink tx_code tx
              (write_beside r.slots source sink parked none apart free'))
            (rw (take_lem, take_lem)
              (
                refl,
                refl,
                unbox_same source rx_code rx (s2 source) (
                    write_beside s1 sink source (some (tx_code, tx)) parked (λ e. apart (sym e))
                      (write_self ty r.slots source parked)),
                unbox_same sink tx_code tx (write ty s2 source none sink) (
                    write_beside s2 source sink none (some (tx_code, tx)) apart
                      (write_self ty s1 sink (some (tx_code, tx)))),
                emptied r.slots source sink j parked (some (tx_code, tx)) free free',
              )))

    -- A service parks both ends of its transport, the receiving end for its ingress task and the
    -- sending end for its egress task; neither installation panics, even where both ends have the
    -- same type. The runtime then builds the tasks: each is built around its own end, and the
    -- registry is left as it was before.
    pub install-new_both :
        (r : Registry ty) (j : ty.Key) (config config' : Option ComponentConfig)
        (rx : ty.Value rx_code) (tx : ty.Value tx_code)
        → source ≢ sink
        → r.slots source ≡ none
        → r.slots sink ≡ none
        → let (r1, first) = Ingress.install ty source rx_code r rx in
          let (r2, second) = Egress.install ty sink tx_code r1 tx in
          let (r3, ingress) = Ingress.new ty source rx_code r2 config in
          let (r4, egress) = Egress.new ty sink tx_code r3 config' in
          (first ≡ returns tt)
          × (second ≡ returns tt)
          × (ingress ≡ ok (record { rx = rx }))
          × (egress ≡ ok (record { tx = tx }))
          × (r4.slots j ≡ r.slots j)
    unfolding Ingress.install Ingress.new Egress.install Egress.new
    install-new_both r j config config' rx tx apart free free' =
        let (first, second, taken, taken', same) = parked_both r j rx tx apart free free' in
        (
          first,
          second,
          ap (λ o. o >>= λ v. ok (record { rx = v })) taken,
          ap (λ o. o >>= λ v. ok (record { tx = v })) taken',
          same,
        )

    -- The same for the tasks that work in batches: the source has the positive cap that its
    -- configuration asks for.
    pub install-new_batch :
        (r : Registry ty) (j : ty.Key) (config config' : Option ComponentConfig) (n : ℕ)
        (rx : ty.Value rx_code) (tx : ty.Value tx_code)
        → configured_batch config ≡ ok (suc n)
        → source ≢ sink
        → r.slots source ≡ none
        → r.slots sink ≡ none
        → let (r1, first) = CycleIngress.install ty source rx_code r rx in
          let (r2, second) = Egress.install_batch ty sink tx_code r1 tx in
          let (r3, ingress) = CycleIngress.new ty source rx_code r2 config in
          let (r4, egress) = Egress.new_batch ty sink tx_code r3 config' in
          (first ≡ returns tt)
          × (second ≡ returns tt)
          × (ingress ≡ ok (record { rx = rx; max_batch = suc n }))
          × (egress ≡ ok (record { tx = tx }))
          × (r4.slots j ≡ r.slots j)
    unfolding CycleIngress.install CycleIngress.build Egress.install_batch Egress.new_batch
    install-new_batch r j config config' n rx tx positive apart free free' =
        let (first, second, taken, taken', same) = parked_both r j rx tx apart free free' in
        rw (new-build ty source rx_code _ config n positive) (
          first,
          second,
          ap (with_batch (suc n)) taken,
          ap (λ o. o >>= λ v. ok (record { tx = v })) taken',
          same,
        )
