-- ===== src/Execution/Events.antt =====
-- How the handlers of src/execution_state.cpp build their events.
use whyrun.Common.Int.{ℤ, pos}
use whyrun.Common.Map.{nat_key}
use whyrun.Common.{ℕ, ◌/◌, ◌%◌, Bool, [], Option, none, ◌==◌, Bytes}
use whyrun.Event.{Event, EventType, put}

-- `Event{timestamp_ns, pid, tid, type, resource, result, 0, {}, std::nullopt}`
abbrev pub plain_event : ℕ → ℕ → ℕ → EventType → Bytes → ℤ → Event
plain_event ts pid tid type resource result = record {
  timestamp_ns = ts;
  pid = pid;
  tid = tid;
  type = type;
  resource = resource;
  result = result;
  errno_value = pos 0;
  metadata = [];
  command_id = none;
}

abbrev pub with_meta : Bytes → Bytes → Event → Event
with_meta key value event = record event { metadata = put key value event.metadata }

abbrev pub with_command : Option ℕ → Event → Event
with_command id event = record event { command_id = id }

-- `(flags & 0x10000) != 0`: CLONE_THREAD and O_DIRECTORY are both this bit.
abbrev pub has_bit_16 : ℕ → Bool
has_bit_16 flags = flags / 0x10000 % 2 == 1
