-- ===== src/Channel/Queue.antt =====
-- A channel that meets the interface: a list, its capacity and a flag.
use msrs.Shared.{
  ℕ, ◌≡◌, refl, Bool, true, false, Option, none, some, List, [], ◌∷◌, ◌++◌, String, Result, ok, err,
  length, ok?, arith,
}
use msrs.Channel.{Channel}

pub record Queue (T : Type 0) : Type 0 where
  pub items : List T
  pub cap : Option ℕ
  pub alive : Bool

module _ {T : Type 0} where
  abbrev pub queue_recv : Queue T → List T → Result (Unit {0}) T × Queue T
  queue_recv q [] = (err tt, record q { items = [] })
  queue_recv q (v ∷ vs) = (ok v, record q { items = vs })

  abbrev pub queue_send : Queue T → Bool → T → Result String (Unit {0}) × Queue T
  queue_send q true v = (ok tt, record q { items = q.items ++ v ∷ [] })
  queue_send q false v = (err "sending on a disconnected channel", q)

  pub queue_recv-nil :
      (q : Queue T) (items : List T)
      → items ≡ []
      → (ok? (queue_recv q items).0 ≡ none) × ((queue_recv q items).1.items ≡ [])
  queue_recv-nil q items h = ground arith

  pub queue_recv-cons :
      (q : Queue T) (items : List T) (v : T) (vs : List T)
      → items ≡ v ∷ vs
      → (ok? (queue_recv q items).0 ≡ some v) × ((queue_recv q items).1.items ≡ vs)
  queue_recv-cons q items v vs h = ground arith

  pub queue_recv-kept :
      (q : Queue T) (items : List T)
      → ((queue_recv q items).1.alive ≡ q.alive) × ((queue_recv q items).1.cap ≡ q.cap)
  queue_recv-kept q [] = (refl, refl)
  queue_recv-kept q (v ∷ vs) = (refl, refl)

  pub queue_send-open :
      (q : Queue T) (b : Bool) (v : T)
      → q.alive ≡ b
      → b ≡ true
      → let r = queue_send q b v in
        (r.0 ≡ ok tt) × (r.1.items ≡ q.items ++ v ∷ []) × (r.1.alive ≡ true) × (r.1.cap ≡ q.cap)
  queue_send-open q true v a h = (refl, refl, a, refl)
  queue_send-open q false v a h = cc

  pub queue_send-closed :
      (q : Queue T) (b : Bool) (v : T)
      → b ≡ false
      → ((text : String) × ((queue_send q b v).0 ≡ err text))
        × ((queue_send q b v).1.items ≡ q.items)
  queue_send-closed q true v h = cc
  queue_send-closed q false v h = (("sending on a disconnected channel", refl), refl)

abbrev pub queue : (T : Type 0) → Channel T
queue T = record {
  Chan = Queue T;
  RecvError = Unit {0};
  unbounded = record { items = []; cap = none; alive = true };
  bounded = λ n. record { items = []; cap = some n; alive = true };
  contents = λ q. q.items;
  capacity = λ q. q.cap;
  is_open = λ q. q.alive;
  try_recv = λ q. queue_recv q q.items;
  send = λ q v. queue_send q q.alive v;
  len = λ q. length q.items;
  drop_receiver = λ q. record q { items = []; alive = false };
  contents-unbounded = refl;
  capacity-unbounded = refl;
  is_open-unbounded = refl;
  contents-bounded = λ n. refl;
  capacity-bounded = λ n. refl;
  is_open-bounded = λ n. refl;
  is_open-drop_receiver = λ q. refl;
  len-contents = λ q. refl;
  try_recv-nil = λ q h. queue_recv-nil q q.items h;
  try_recv-cons = λ q v vs h. queue_recv-cons q q.items v vs h;
  is_open-try_recv = λ q. (queue_recv-kept q q.items).0;
  capacity-try_recv = λ q. (queue_recv-kept q q.items).1;
  send-open = λ q v h room. queue_send-open q q.alive v refl h;
  send-closed = λ q v h. queue_send-closed q q.alive v h;
}
