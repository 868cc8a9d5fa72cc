-- ===== src/Event.antt =====
-- include/whyrun/event.hpp and src/event.cpp: what the recorder emits.
use whyrun.Common.{ℕ, List, [], ◌∷◌, Option, Bytes, codes, equal, if◌then◌else◌}
use whyrun.Common.Int.{ℤ}

pub data EventType : Type 0 where
  command_start command_end process_exec process_fork process_exit : EventType
  file_open file_read file_write network_connect local_ipc_connect : EventType

abbrev pub Metadata : Type 0
Metadata = List (Bytes × Bytes)

-- `metadata[key] = value`. An unordered map: the order of the list means nothing.
unfoldable pub put : Bytes → Bytes → Metadata → Metadata
unfolding equal
put k v [] = (k, v) ∷ []
put k v ((j, w) ∷ m) = if equal k j then (k, v) ∷ m else (j, w) ∷ put k v m

pub record Event : Type 0 where
  pub timestamp_ns : ℕ
  pub pid : ℕ
  pub tid : ℕ
  pub type : EventType
  pub resource : Bytes
  pub result : ℤ
  pub errno_value : ℤ
  pub metadata : Metadata
  pub command_id : Option ℕ

unfoldable pub event_type_name : EventType → Bytes
event_type_name command_start = codes "command_start"
event_type_name command_end = codes "command_end"
event_type_name process_exec = codes "process_exec"
event_type_name process_fork = codes "process_fork"
event_type_name process_exit = codes "process_exit"
event_type_name file_open = codes "file_open"
event_type_name file_read = codes "file_read"
event_type_name file_write = codes "file_write"
event_type_name network_connect = codes "network_connect"
event_type_name local_ipc_connect = codes "local_ipc_connect"
