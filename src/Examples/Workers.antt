-- ===== src/Examples/Workers.antt =====
-- Claims of internal/webui/fleet on a server that is two lists.
use loomcli.Common.{◌≡◌, refl, List, [], ◌∷◌, arith, has, apart}
use loomcli.Fleet.{try_claim, taken}
use loomcli.Fleet.Lease.Runs.{Event, claims, releases, run, lease_excludes}
use loomcli.Fleet.Server.{lists, no_keys}

-- Another task is claimed and released, and the lease is renewed.
abbrev meanwhile : List Event
meanwhile = claims 110 "bd-2" "owl" ∷ claims 200 "bd-1" "falcon" ∷ releases "bd-2" ∷ []

lease_excludes_example :
    (try_claim lists
      (run lists (try_claim lists no_keys 100 "bd-1" "falcon").0 meanwhile)
      399
      "bd-1"
      "owl").1
    ≡ taken "falcon"
unfolding try_claim has
lease_excludes_example =
    lease_excludes lists no_keys 100 399 "bd-1" "falcon" "owl" meanwhile refl
      ((omega arith, omega arith), ((omega arith, omega arith), (apart "bd-2" "bd-1" refl, tt)))
      (omega arith) (omega arith) refl (apart "falcon" "owl" refl)
