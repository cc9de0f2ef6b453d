-- ===== src/Rt.antt =====
-- crates/msrs-core/src/rt.rs: scheduling controls. The crates core_affinity and thread-priority (not
-- part of the repository) are a parameter, over the state of the current thread.
pub mod Attempts
pub mod Pinning
use Prim.Native.String.{◌++◌}
use msrs.Shared.{
  ℕ, Bool, true, false, Option, none, some, List, [], ◌∷◌, String, Result, ok, err, map_err,
  to_decimal, ◌==◌, if◌then◌else◌, is_nil,
}

-- The priority of `fifo` is a u8.
pub data SchedPolicy : Type 0 where
  normal_policy : SchedPolicy
  fifo : ℕ → SchedPolicy

pub record RtConfig : Type 0 where
  pub scheduler : SchedPolicy
  pub affinity : List ℕ

-- `RtConfig::normal`.
unfoldable pub normal : RtConfig
normal = record { scheduler = normal_policy; affinity = [] }

pub record Platform : Type 1 where
  pub Thread : Type 0
  pub CoreId : Type 0
  pub id : CoreId → ℕ
  pub get_core_ids : Thread → Option (List CoreId)
  pub set_for_current : CoreId → Thread → Bool × Thread
  pub Priority : Type 0
  -- `ThreadPriorityValue::try_from`; an error is its `{}` text.
  pub priority_of : ℕ → Result String Priority
  -- `set_thread_priority_and_policy` with the policy FIFO; an error is its `{:?}` text.
  pub set_priority : Priority → Thread → Result String (Unit {0}) × Thread
  -- `cfg(target_os = "linux")`.
  pub is_linux : Bool

-- `Option::get_or_insert` on `first_err`.
abbrev pub get_or_insert : Option String → String → Option String
get_or_insert none e = some e
get_or_insert (some old) e = some old

module _ (os : Platform) where
  open os use {
    Thread, CoreId, id, get_core_ids, set_for_current, Priority, priority_of, set_priority,
    is_linux,
  }

  -- `set_fifo` on Linux, once the priority is known to be one.
  unfoldable pub set_fifo_at : Result String Priority → Thread → Result String (Unit {0}) × Thread
  set_fifo_at (err e) th = (err ("invalid priority: " ++ e), th)
  set_fifo_at (ok priority) th =
      let (set, th') = set_priority priority th in
      (map_err (λ e. "set SCHED_FIFO failed: " ++ e) set, th')

  unfoldable pub set_fifo : ℕ → Thread → Result String (Unit {0}) × Thread
  unfolding set_fifo_at
  set_fifo prio th =
      if is_linux
      then set_fifo_at (priority_of prio) th
      else (err "SCHED_FIFO only supported on Linux", th)

  -- `ids.iter().find(|c| c.id == *want)`.
  unfoldable pub find_core : List CoreId → ℕ → Option CoreId
  find_core [] want = none
  find_core (c ∷ cs) want = if id c == want then some c else find_core cs want

  -- The body of `for want in &self.affinity`, over `first_err` and the thread.
  unfoldable pub pin_found : ℕ → Option CoreId → Option String → Thread → Option String × Thread
  pin_found want none first_err th =
      (get_or_insert first_err ("core " ++ (to_decimal want ++ " not available")), th)
  pin_found want (some core) first_err th =
      let (done, th') = set_for_current core th in
      (
        if done
            then first_err
            else get_or_insert first_err ("failed to pin to core " ++ to_decimal want),
        th',
      )

  unfoldable pub pin_each : List CoreId → List ℕ → Option String → Thread → Option String × Thread
  unfolding find_core pin_found
  pin_each ids [] first_err th = (first_err, th)
  pin_each ids (want ∷ wants) first_err th =
      let (first_err', th') = pin_found want (find_core ids want) first_err th in
      pin_each ids wants first_err' th'

  -- The `match core_affinity::get_core_ids()`.
  unfoldable pub pin_among : Option (List CoreId) → List ℕ → Thread → Option String × Thread
  unfolding pin_each
  pin_among (some ids) wants th = pin_each ids wants none th
  pin_among none wants th = (some "core ids unavailable", th)

  unfoldable pub pin_all : List ℕ → Thread → Option String × Thread
  unfolding pin_among
  pin_all wants th = if is_nil wants then (none, th) else pin_among (get_core_ids th) wants th

  abbrev pub add_failure : Option String → Result String (Unit {0}) → Option String
  add_failure first_err (ok _) = first_err
  add_failure first_err (err e) = get_or_insert first_err e

  -- The `if let SchedPolicy::Fifo(prio)`.
  unfoldable pub schedule : SchedPolicy → Option String → Thread → Option String × Thread
  unfolding set_fifo
  schedule normal_policy first_err th = (first_err, th)
  schedule (fifo prio) first_err th =
      let (set, th') = set_fifo prio th in (add_failure first_err set, th')

  abbrev pub verdict : Option String → Result String (Unit {0})
  verdict (some e) = err e
  verdict none = ok tt

  unfoldable pub apply : RtConfig → Thread → Result String (Unit {0}) × Thread
  unfolding pin_all schedule
  apply config th =
      let (first_err, th') = pin_all config.affinity th in
      let (first_err', th'') = schedule config.scheduler first_err th' in (verdict first_err', th'')
