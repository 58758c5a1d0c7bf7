-- ===== src/Store/Toy.antt =====
-- A small store with a segment that stands in, for the tests (audit/src/store.rs).
use riscdom.Prelude.{
  List, Result, String, [], false, if◌then◌else◌, none, ok, refl, some, str_eq, sym, ◌∷◌,
}
use riscdom.Prelude.Int.{pos}
use riscdom.Event.{AuditEvent, StoredEvent}
use riscdom.Json.{Json}
use riscdom.Segment.{Segment, temporary}
use riscdom.Store.{AuditError, AuditStore, new_event}
use riscdom.Store.Segments.{fresh_segment}
use riscdom.Store.Runs.{Call, appended, closing, opening, run}
use riscdom.Store.Once.{JsonLaws}

-- Details that are texts; an object is known by its first member, a segment id in what is used here.
abbrev pub toy : Json String
toy = record {
  get = λ v key. if str_eq key "segment_id" then some v else none;
  as_str = λ v. some v;
  as_u64 = λ v. none;
  as_i64 = λ v. none;
  as_bool = λ v. none;
  is_null = λ v. false;
  object = λ members. elim members [ [] ↦ "" | m ∷ rest ↦ m.1 ];
  remove = λ key v. v;
  null = "";
  str = λ s. s;
  num = λ n. "";
  int = λ n. "";
  beq = str_eq;
  to_string = λ v. some v;
  from_str = λ s. some s;
}

pub toy_laws : JsonLaws toy
toy_laws = record { round_trip = λ v s e. sym e; first_member = λ v rest. refl; text = λ s. refl }

-- In place of the digest, the text itself.
abbrev pub plain : String → String
plain s = s

abbrev pub show : AuditError → String
show e = "error"

abbrev pub empty : AuditStore
empty = record { rows = []; segments = []; answers = [] }

abbrev pub run_started : AuditEvent String
run_started = new_event (pos 1000) "host" "run.start" "one"

abbrev pub own_file : Result AuditStore AuditError
own_file = ok (
    run String ⦃json = toy⦄ plain show
      (appended 5 (new_event (pos 2000) "agent" "tool.call" "two") ∷ []) empty)

abbrev pub life : List (Call String)
life =
    appended 5 run_started
    ∷ opening temporary (some "edge") (pos 1500) (pos 1501)
    ∷ closing "seg-edge-1500" (pos 2500) (pos 2501)
    ∷ []

abbrev pub closed_store : AuditStore
closed_store = run String ⦃json = toy⦄ plain show life empty

abbrev pub edge : String
edge = "seg-edge-1500"

abbrev pub stored_two : StoredEvent String
stored_two = record {
  id = pos 1;
  event = new_event (pos 2000) "agent" "tool.call" "two";
  prev_hash = "p";
  hash = "h";
}

abbrev pub opened_segment : Segment
opened_segment = fresh_segment edge temporary (pos 1500) empty
