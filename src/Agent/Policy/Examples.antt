-- ===== src/Agent/Policy/Examples.antt =====
-- A workspace and paths in it and out of it (agent/src/policy.rs).
use riscdom.Prelude.{List, String, [], err, ok, refl, ◌↔◌, ◌∷◌, ◌≡◌}
use riscdom.Prelude.Text.{strip_prefix}
use riscdom.Agent.Config.{policy_denied}
use riscdom.Agent.Policy.{
  Component, WorkspacePolicy, check_read, check_write, components, extension, is_allowed, new,
  normal, root_dir,
}
use riscdom.Agent.Policy.Extension.{IsSource}
use riscdom.Agent.Policy.Inside.{IsReadable, policy_iff}

abbrev display : List Component → String
display path = "a path"

abbrev home : List Component
home = components "/home/x/../me/./ws"

abbrev workspace : WorkspacePolicy
workspace = new home

abbrev source : List Component
source =
    root_dir ∷ normal "home" ∷ normal "me" ∷ normal "ws" ∷ normal "src" ∷ normal "start.ZIG" ∷ []

policy_iff_example :
    ((check_read display workspace (components "./src//start.ZIG") ≡ ok source)
      ↔ IsReadable display home "./src//start.ZIG" source)
    × ((check_write display workspace (components "./src//start.ZIG") ≡ ok source)
        ↔ (IsReadable display home "./src//start.ZIG" source × IsSource source))
policy_iff_example = policy_iff display home "./src//start.ZIG" source

written : check_write display workspace (components "./src//start.ZIG") ≡ ok source
unfolding check_read check_write components strip_prefix new is_allowed extension
written = refl

climbs :
    check_read display workspace (components "src/../../etc/passwd")
    ≡ err (policy_denied "path traversal not allowed: a path")
unfolding check_read check_write components strip_prefix new is_allowed extension
climbs = refl

outside :
    check_read display workspace (components "/etc/passwd")
    ≡ err (policy_denied "path outside workspace: a path")
unfolding check_read check_write components strip_prefix new is_allowed extension
outside = refl

hidden :
    check_write display workspace (components ".c")
    ≡ err (policy_denied "extension not allowed: (none)")
unfolding check_read check_write components strip_prefix new is_allowed extension
hidden = refl
