-- ===== src/Session.antt =====
-- The check of a write's session on the data plane: checkSessionFence and decodeLeaseHex of
-- cmd/orlop-server/dataplane_server.go, over the tenant's lease manager and the registry of mount leases.
pub mod Cleared
use orlop.Prelude.{
  ℕ, ◌+◌, ◌-◌, ◌*◌, Text, text, Bool, true, false, Option, none, some, List, [], ◌∷◌, length, drop,
  ◌&&◌, ◌||◌, not, ltb, leb, ◌==◌, if◌then◌else◌, Outcome, ok, err,
}
use orlop.Prelude.Map.{is_empty}
use orlop.Paths.{has_prefix}
use orlop.Fence.{MountLeaseRegistry, install}
use orlop.Lease.{LeaseManager, authorize_or_rebind_session}

-- The value of a hex digit; both cases are read.
abbrev hex_digit : ℕ → Option ℕ
hex_digit c =
    if leb b'0' c && leb c b'9'
    then some (c - b'0')
    else if leb b'a' c && leb c b'f'
    then some (c - b'a' + 10)
    else if leb b'A' c && leb c b'F'
    then some (c - b'A' + 10)
    else none

abbrev byte_of : Option ℕ → Option ℕ → Option Text → Option Text
byte_of (some a) (some b) (some bytes) = some ((a * 16 + b) ∷ bytes)
byte_of _ _ _ = none

-- hex.Decode
unfoldable pub hex_decode : Text → Option Text
hex_decode [] = some []
hex_decode (a ∷ []) = none
hex_decode (a ∷ b ∷ s) = byte_of (hex_digit a) (hex_digit b) (hex_decode s)

unfoldable pub decode_lease_hex : Text → Option Text
decode_lease_hex s = if not (length s == 32) then none else hex_decode s

pub data Denial : Type 0 where
  bad_format bad_hex unknown_or_wrong_holder fenced : Denial

abbrev pub mount_prefix : Text
mount_prefix = text "mount:"

-- The answer for a session that the lease manager knows: a fenced one is denied, though its lease may have moved.
abbrev pub fence :
    LeaseManager × (Bool × Bool)
    → MountLeaseRegistry × Bool
    → Text
    → LeaseManager × MountLeaseRegistry × Outcome Denial Text
fence (m, (false, rebound)) (r, installed) lease_hex = (m, r, err unknown_or_wrong_holder)
fence (m, (true, rebound)) (r, false) lease_hex = (m, r, err fenced)
fence (m, (true, rebound)) (r, true) lease_hex = (m, r, ok lease_hex)

-- The result is the hex of the session's lease, empty for a write with no session.
unfoldable pub check_session_fence :
    LeaseManager
    → MountLeaseRegistry
    → Text
    → ℕ
    → ℕ
    → Text
    → Text
    → LeaseManager × MountLeaseRegistry × Outcome Denial Text
check_session_fence m r agent conn now session_id allocation =
    if is_empty session_id
    then (m, r, ok [])
    else if not (has_prefix session_id mount_prefix)
        || leb (length session_id) (length mount_prefix)
    then (m, r, err bad_format)
    else let lease_hex = drop (length mount_prefix) session_id in
      elim (decode_lease_hex lease_hex) [
        | none ↦ (m, r, err bad_hex)
        | some id ↦
            let after = authorize_or_rebind_session m id agent conn now in
            if after.1.0
            then fence after (install r allocation lease_hex) lease_hex
            else (after.0, r, err unknown_or_wrong_holder)
      ]
