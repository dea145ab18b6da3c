-- ===== src/Examples/Claims.antt =====
-- Calls of internal/kv on a server that is a function from keys.
use loomcli.Common.{
  ◌≡◌, ◌+◌, refl, none, List, [], ◌∷◌, ℕ, pos, arith, has, apart, true, false, leb, inl, inr,
}
use loomcli.Fleet.{is_recorded}
use loomcli.Kv.{task_owner_key, get, claim_script, heartbeat_script, take_task, keep_alive}
use loomcli.Kv.Client.{ok, validate_id, claim_task, heartbeat, get_stale_workers}
use loomcli.Kv.Leases.{Leases}
use loomcli.Kv.Requests.{
  Request, claims, beats, completes, cleans, claim, beat, serve, serve_all, promise_all, promise,
}
use loomcli.Kv.Refines.{Represents, serve_all-promise_all, wait_Represents}
use loomcli.Kv.Exclusion.{claim_task_excludes}
use loomcli.Kv.Forgets.{complete_task_forgets}
use loomcli.Kv.Server.{store, empty_store}
use loomcli.Kv.Stale.{StaleWorker, cleanup_worker}
use loomcli.Kv.Stale.Late.{heartbeat_defers, cleanup_worker_takes}

abbrev no_leases : Leases
no_leases = record { owners = λ k. none; sessions = λ k. none }

empty_store-no_leases : Represents store empty_store 1000 no_leases
empty_store-no_leases = (λ t le x. refl, λ t le x. refl)

-- Two workers, a heartbeat, a completion and a removal.
abbrev calls : List (ℕ × Request)
calls =
    (0, claims "falcon" "bd-1" "fix it" "build")
    ∷ (10, claims "owl" "bd-1" "fix it" "build")
    ∷ (60000, beats "falcon")
    ∷ (5, completes "falcon" "bd-1")
    ∷ (1, cleans "bd-1" "owl")
    ∷ []

serve_all-promise_all_example :
    ((serve_all store empty_store 1000 calls).1 ≡ (promise_all no_leases 1000 calls).1)
    × Represents store
        (serve_all store empty_store 1000 calls).0
        61016
        (promise_all no_leases 1000 calls).0
serve_all-promise_all_example =
    serve_all-promise_all store empty_store 1000 no_leases calls empty_store-no_leases

-- Others' calls after a claim.
abbrev others : List (ℕ × Request)
others =
    (10, claims "owl" "bd-2" "test it" "build")
    ∷ (60000, beats "falcon")
    ∷ (1, completes "owl" "bd-2")
    ∷ (1, completes "owl" "bd-1")
    ∷ []

claim_task_excludes_example :
    (serve store
      (serve_all store
        (serve store empty_store 1000 (claims "falcon" "bd-1" "fix it" "build")).0
        1000
        others).0
      (61012 + 200000)
      (claims "owl" "bd-1" "fix it" "build")).1
    ≡ claim (ok (record { success = false; existing_owner = "falcon" }))
unfolding serve has claim_task validate_id claim_script
claim_task_excludes_example =
    claim_task_excludes store empty_store 1000 200000 no_leases "bd-1" "falcon" "owl" "fix it"
      "build" "fix it" "build" others empty_store-no_leases refl
      (tt, (tt, (inl refl, (inr (apart "owl" "falcon" refl), tt)))) (omega arith) refl
      (apart "falcon" "owl" refl)

-- The falcon has claimed two tasks.
abbrev two_claims : List (ℕ × Request)
two_claims =
    (0, claims "falcon" "bd-1" "fix it" "build")
    ∷ (500, claims "falcon" "bd-2" "test it" "build")
    ∷ []

complete_task_forgets_example :
    let x =
      serve store
        (serve_all store empty_store 1000 two_claims).0
        2000
        (completes "falcon" "bd-1") in
    let y = serve store x.0 (2000 + 60000) (beats "falcon") in
    (y.1 ≡ beat (ok (record { success = true; ttl = pos 300; error = "" })))
    × (get store y.0 301500 (task_owner_key "bd-2") ≡ none)
unfolding promise_all promise validate_id has
complete_task_forgets_example =
    complete_task_forgets store (serve_all store empty_store 1000 two_claims).0 2000 60000 301500
      301500 (promise_all no_leases 1000 two_claims).0 "falcon" "bd-1" "bd-2"
      (wait_Represents store (serve_all store empty_store 1000 two_claims).0 1500 500
        (promise_all no_leases 1000 two_claims).0
        (serve_all-promise_all store empty_store 1000 no_leases two_claims empty_store-no_leases).1)
      refl refl refl refl refl (omega arith) (omega arith) (omega arith)

-- What others request after the heartbeat of "falcon".
abbrev by_owl : List (ℕ × Request)
by_owl =
    (10, claims "owl" "bd-2" "test it" "build")
    ∷ (1, cleans "bd-1" "falcon")
    ∷ (5, completes "owl" "bd-2")
    ∷ []

heartbeat_defers_example :
    is_recorded "falcon" (
      get_stale_workers store
        (serve_all store
          (heartbeat store
            (claim_task store empty_store 1000 "falcon" "bd-1" "fix it" "build").0
            61000
            "falcon").0
          61000
          by_owl).0
        (61016 + 299984)
        300000)
    ≡ leb (61000 + 300000) (61016 + 299984)
unfolding heartbeat heartbeat_script claim_task claim_script take_task keep_alive validate_id has
heartbeat_defers_example =
    heartbeat_defers store (claim_task store empty_store 1000 "falcon" "bd-1" "fix it" "build").0
      61000 299984 300000 "falcon" by_owl refl (omega arith)
      (apart "owl" "falcon" refl, (tt, (apart "owl" "falcon" refl, tt)))

-- What a check has found of a worker that then comes back.
abbrev found : StaleWorker
found = record {
  worker_id = "falcon";
  task_id = "bd-1";
  task_title = "fix it";
  last_heartbeat = 1000;
}

cleanup_worker_takes_example :
    get store
      (cleanup_worker store
        (serve store empty_store 400000 (claims "falcon" "bd-1" "fix it" "build")).0
        (400000 + 1)
        found).0
      400002
      (task_owner_key "bd-1")
    ≡ none
unfolding serve has claim_task validate_id claim_script
cleanup_worker_takes_example =
    cleanup_worker_takes store empty_store 400000 1 400002 no_leases "fix it" "build" found
      (λ t le x. refl, λ t le x. refl) refl refl refl (omega arith) (omega arith)
