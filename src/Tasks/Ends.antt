-- ===== src/Tasks/Ends.antt =====
-- crates/msrs-transport/src/registry.rs as a service uses it: the types of its two tasks that take a
-- channel end, and of these ends. The names of types, as `type_name` prints them, are parameters,
-- and so is what copper answers to the mains of examples/echo and examples/watchdog.
use msrs.Shared.{◌≡◌, ◌≢◌, refl, sym, Option, none, String, Result}
use msrs.Copper.{ComponentConfig}
use msrs.Registry.{Types, Registry}

pub data TaskType : Type 0 where
  source_type sink_type : TaskType

pub data EndType : Type 0 where
  receiver_type sender_type : EndType

pub source≢sink : source_type ≢ sink_type
source≢sink e = cc

pub receiver≢sender : receiver_type ≢ sender_type
receiver≢sender e = cc

abbrev task_discrete : Discrete TaskType
task_discrete source_type source_type = yes refl
task_discrete source_type sink_type = no source≢sink
task_discrete sink_type source_type = no (λ e. source≢sink (sym e))
task_discrete sink_type sink_type = yes refl

abbrev end_discrete : Discrete EndType
end_discrete receiver_type receiver_type = yes refl
end_discrete receiver_type sender_type = no receiver≢sender
end_discrete sender_type receiver_type = no (λ e. receiver≢sender (sym e))
end_discrete sender_type sender_type = yes refl

abbrev pub End : Type 0 → Type 0 → EndType → Type 0
End Rx Tx receiver_type = Rx
End Rx Tx sender_type = Tx

abbrev pub service_types : Type 0 → Type 0 → (TaskType → String) → (EndType → String) → Types
service_types Rx Tx task_name end_name = record {
  Key = TaskType;
  key_discrete = task_discrete;
  key_name = task_name;
  Code = EndType;
  code_discrete = end_discrete;
  code_name = end_name;
  Value = End Rx Tx;
}

-- What copper answers while an application is built, and the configurations of its three tasks.
pub record Building : Type 0 where
  pub with_log_path : Result String (Unit {0})
  pub build : Result String (Unit {0})
  pub start_all_tasks : Result String (Unit {0})
  pub source_config : Option ComponentConfig
  pub fsm_config : Option ComponentConfig
  pub sink_config : Option ComponentConfig

module _ {Rx Tx : Type 0} {task_name : TaskType → String} {end_name : EndType → String} where
  -- A service has no other slots than these two.
  pub unparked :
      (r : Registry (service_types Rx Tx task_name end_name))
      → r.slots source_type ≡ none
      → r.slots sink_type ≡ none
      → (k : TaskType) → r.slots k ≡ none
  unparked r free free' source_type = free
  unparked r free free' sink_type = free'
