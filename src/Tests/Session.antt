-- ===== src/Tests/Session.antt =====
-- The theorems on cleared sessions at a concrete lease.
use orlop.Prelude.{◌++◌, Text, text, text_dec, true, false, some, [], ◌∷◌, ◌≡◌, ◌≢◌, refl, arith}
use orlop.Prelude.Map.{empty}
use orlop.Fence.{MountLeaseRegistry, install, active_lease, clear, state_of}
use orlop.Lease.{LeaseManager, exclusive_write, new_lease_manager, grant_locked, install_locked}
use orlop.Lease.Sessions.{may_write}
use orlop.Session.{hex_decode, decode_lease_hex, mount_prefix, check_session_fence}
use orlop.Session.Cleared.{is_admitted, other_spelling_is_admitted}

abbrev lower : Text
lower = text "abababababababababababababababab"

abbrev upper : Text
upper = text "ABABABABABABABABABABABABABABABAB"

abbrev lease_id : Text
lease_id =
    171 ∷ 171 ∷ 171 ∷ 171 ∷ 171 ∷ 171 ∷ 171 ∷ 171 ∷ 171 ∷ 171 ∷ 171 ∷ 171 ∷ 171 ∷ 171 ∷ 171 ∷ 171
    ∷ []

abbrev leases : LeaseManager
leases =
    (grant_locked (new_lease_manager (record { ttl = 30; min_hold = 2 })) (text "agent") 1
      (text "/agent") exclusive_write lease_id 5).0

abbrev registry : MountLeaseRegistry
registry = (install empty (text "al") lower).0

lower_is_active : active_lease registry (text "al") ≡ lower
unfolding install active_lease text_dec
lower_is_active = refl

lower_decodes : decode_lease_hex lower ≡ some lease_id
unfolding decode_lease_hex hex_decode
lower_decodes = refl

upper_decodes : decode_lease_hex upper ≡ decode_lease_hex lower
unfolding decode_lease_hex hex_decode
upper_decodes = refl

upper_is_free : (state_of (registry (text "al"))).fenced upper ≡ false
unfolding install text_dec
upper_is_free = refl

agent_may_write : may_write leases lease_id (text "agent") 1 6 ≡ true
unfolding new_lease_manager grant_locked install_locked text_dec
agent_may_write = refl

lower_is_named : lower ≢ []
lower_is_named e = ground (arith, e)

upper_is_not_lower : upper ≢ lower
upper_is_not_lower e = ground (arith, e)

other_spelling_is_admitted_example :
    is_admitted (
      check_session_fence leases
        (clear registry (text "al"))
        (text "agent")
        1
        6
        (mount_prefix ++ upper)
        (text "al"))
    ≡ true
other_spelling_is_admitted_example =
    other_spelling_is_admitted leases registry (text "agent") 1 6 (text "al") lower upper lease_id
      lower_is_active refl lower_decodes upper_decodes upper_is_not_lower upper_is_free
      agent_may_write
