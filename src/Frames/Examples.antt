-- ===== src/Frames/Examples.antt =====
-- Bodies of each kind, read back (net/src/relay.rs, net/src/task.rs).
use riscdom.Frames.Toy
use riscdom.Frames.Toy.{values, value_lists}
use riscdom.Prelude.{[], arith, none, refl, some, ◌≡◌}
use riscdom.Prelude.Int.{pos, wrap_i64}
use riscdom.Online.{in_rooms}
use riscdom.Frames.{
  Local, TaskFrame, key_event, local_of, local_report, probe_body, register_body, registering,
  registry, registry_request_body, speaks, unrecognised,
}
use riscdom.Frames.Read.{body_of, local_of-body_of}
use riscdom.Frames.Toy.{Value, field_get, fields_of, value_laws}

abbrev event : Local Value
event = key_event (pos 1500) "host.connection.takeover" (Toy.str "seg-edge-1500")

local_of-body_of_example : local_of (body_of event) ≡ event
unfolding wrap_i64
local_of-body_of_example = local_of-body_of value_laws event (omega arith)

-- `register` and `registry` differ by one letter and mean opposite directions.
told_apart :
    (local_of {V = Value} registry_request_body ≡ registry)
    × (local_of {V = Value} (register_body [] [] []) ≡ registering (in_rooms []))
unfolding local_of registry_request_body register_body in_rooms speaks fields_of field_get
told_apart = (refl, refl)

-- Of nothing that the server knows, the whole body is kept.
not_for_the_server : local_of {V = Value} probe_body ≡ unrecognised probe_body
unfolding local_of local_report probe_body speaks fields_of field_get
not_for_the_server = refl

abbrev task : TaskFrame
task = record {
  task_id = "task-edge-1-1";
  target = "node:centre";
  input = "count the words";
  sandbox = some "small";
  instance_id = none;
}
