-- ===== src/Tests/Leases.antt =====
-- The theorems on leases and on the session registry at concrete calls.
use orlop.Prelude.{
  ℕ, text, text_dec, true, false, none, some, List, [], ◌∷◌, ◌≡◌, ◌≢◌, refl, contains,
  if◌then◌else◌, ◌&&◌, arith,
}
use orlop.Prelude.Map.{empty}
use orlop.Fence.{MountLeaseRegistry, install, active_lease, clear}
use orlop.Fence.Resurrection.{Call, installs, clears, run, cleared_never_resurrects}
use orlop.Lease.{
  LeaseManager, LeaseConfig, exclusive_write, new_lease_manager, grant_locked, install_locked,
  remove_locked, grant_held, authorize_or_rebind_session, rebind,
}
use orlop.Lease.Calls.{release_all_for_conn, release_one}
use orlop.Lease.Invariant.{Inv, new-Inv}
use orlop.Lease.Preservation.{grant_locked-Inv}
use orlop.Lease.Removal.{by_id-release_all_for_conn}
use orlop.Lease.Grants.{Superseded}
use orlop.Lease.Sessions as Sessions
use orlop.Lease.Sessions.{
  AllFit, AuthorizeOutcome, may_write, authorize_lem, rebound_survives, run-new-Inv,
  one_lease_per_path,
}

abbrev registry : MountLeaseRegistry
registry = (install empty (text "al") (text "aa")).0

registry_active : active_lease registry (text "al") ≡ text "aa"
unfolding install active_lease text_dec
registry_active = refl

abbrev later : List Call
later = installs (text "al") (text "bb") ∷ clears (text "al") ∷ []

cleared_never_resurrects_example :
    ((install (run (clear registry (text "al")) later) (text "al") (text "aa")).1 ≡ false)
    × (active_lease (run (clear registry (text "al")) later) (text "al") ≢ text "aa")
cleared_never_resurrects_example =
    cleared_never_resurrects registry (text "al") (text "aa") later registry_active (λ e. cc)

abbrev config : LeaseConfig
config = record { ttl = 30; min_hold = 2 }

abbrev start : LeaseManager
start = new_lease_manager config

-- The agent holds the path by the lease "i" on connection 1.
abbrev held : LeaseManager
held = (grant_locked start (text "agent") 1 (text "/agent") exclusive_write (text "i") 5).0

start_free : start.by_id (text "i") ≡ none
unfolding new_lease_manager
start_free = refl

held-Inv : Inv held
held-Inv =
    grant_locked-Inv start (new-Inv config) (text "agent") 1 (text "/agent") exclusive_write
      (text "i") 5 start_free (omega arith)

held_at : held.by_id (text "i") ≡ some 0
unfolding new_lease_manager grant_locked install_locked text_dec
held_at = refl

held_j : held.by_id (text "j") ≡ none
unfolding new_lease_manager grant_locked install_locked text_dec
held_j = refl

held_conn : (held.records 0).conn_id ≡ 1
unfolding new_lease_manager grant_locked install_locked text_dec
held_conn = refl

by_id-release_all_for_conn_example :
    (release_all_for_conn held 1 (text "i" ∷ [])).by_id (text "i") ≡ (
      if contains (text "i" ∷ []) (text "i") && held.by_conn 1 (text "i")
      then none
      else held.by_id (text "i"))
by_id-release_all_for_conn_example =
    by_id-release_all_for_conn held 1 (text "i" ∷ []) (text "i") held-Inv

takeover : Superseded held 0 (text "agent") 2 (text "/agent") exclusive_write
unfolding new_lease_manager grant_locked install_locked text_dec
takeover = record {
  at_path = refl;
  same_holder = refl;
  same_mode_of = refl;
  other_conn = λ e. ground (arith, e);
  had_conn = λ e. ground (arith, e);
}

abbrev taken : LeaseManager
taken = (grant_locked held (text "agent") 2 (text "/agent") exclusive_write (text "j") 9).0

abbrev moved : LeaseManager
moved = (authorize_or_rebind_session held (text "i") (text "agent") 2 9).0

authorize_lem_example :
    ((authorize_or_rebind_session held (text "i") (text "agent") 2 9).1.0
      ≡ may_write held (text "i") (text "agent") 2 9)
    × AuthorizeOutcome held held-Inv
        (text "i")
        (text "agent")
        2
        9
        (authorize_or_rebind_session held (text "i") (text "agent") 2 9)
authorize_lem_example = authorize_lem held held-Inv (text "i") (text "agent") 2 9

authorized : (authorize_or_rebind_session held (text "i") (text "agent") 2 9).1.0 ≡ true
unfolding new_lease_manager grant_locked install_locked authorize_or_rebind_session rebind text_dec
authorized = refl

abbrev calls : List (ℕ × Sessions.Call)
calls =
    (5, Sessions.grants (text "agent") 1 (text "/agent") exclusive_write (text "i"))
    ∷ (9, Sessions.grants (text "agent") 2 (text "/agent") exclusive_write (text "j"))
    ∷ (10, Sessions.disconnects 1 (text "i" ∷ []))
    ∷ []

calls_fit : AllFit (new_lease_manager config) calls
unfolding new_lease_manager grant_locked grant_held remove_locked install_locked Sessions.step
    text_dec
calls_fit = ((refl, omega arith), ((refl, omega arith), (tt, tt)))

run-new-Inv_example : Inv (Sessions.run (new_lease_manager config) calls)
run-new-Inv_example = run-new-Inv config calls calls_fit

j_found : (Sessions.run (new_lease_manager config) calls).by_id (text "j") ≡ some 1
unfolding new_lease_manager grant_locked grant_held remove_locked install_locked Sessions.step
    Sessions.run release_all_for_conn release_one text_dec
j_found = refl
