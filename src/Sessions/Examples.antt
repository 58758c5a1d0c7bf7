-- ===== src/Sessions/Examples.antt =====
-- Connections of two nodes (net/src/relay.rs), and the witness of the claim about them.
use mathlib.Core.Option
use riscdom.Prelude.{
  List, String, [], arith, insert, is_some, lookup, none, refl, remove, some, ℕ, ◌++◌, ◌∷◌, ◌≡◌,
}
use riscdom.Sessions.{
  Event, address_of, ended, is_present, no_connections, opened, serve, serve_all,
}
use riscdom.Sessions.Newest.{address_of-newest, newest}

abbrev visits : List Event
visits =
    opened "alpha" "10.0.0.1:9"
    ∷ opened "beta" "10.0.0.2:9"
    ∷ opened "alpha" "10.0.0.3:9"
    ∷ ended 0
    ∷ []

address_of-newest_example :
    (is_present (serve_all no_connections visits).table "alpha"
      ≡ is_some (newest "alpha" 0 none visits))
    × (address_of (serve_all no_connections visits).table "alpha"
        ≡ Option.map (λ (c : ℕ × String). c.1) (newest "alpha" 0 none visits))
address_of-newest_example = address_of-newest "alpha" visits (omega arith)

newer_stays : address_of (serve_all no_connections visits).table "alpha" ≡ some "10.0.0.3:9"
unfolding address_of lookup serve_all serve insert
newer_stays = refl

older_gone : address_of (serve_all no_connections (visits ++ ended 2 ∷ [])).table "alpha" ≡ none
unfolding address_of lookup serve_all serve insert remove
older_gone = refl
