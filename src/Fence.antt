-- ===== src/Fence.antt =====
-- cmd/orlop-server/mount_lease_registry.go: which mount session may write to an allocation, and
-- which sessions have been displaced. The map and its mutex are one value; each call is atomic.
pub mod Resurrection
use orlop.Prelude.{Text, Bool, true, false, Option, none, some, [], ◌||◌, eqb, if◌then◌else◌}
use orlop.Prelude.Map.{Map, put, is_empty}

-- `fenced` is the set of the keys that map to true.
pub record AllocationLeaseState : Type 0 where
  pub active : Text
  pub fenced : Text → Bool

abbrev pub MountLeaseRegistry : Type 0
MountLeaseRegistry = Map Text AllocationLeaseState

abbrev pub new_state : AllocationLeaseState
new_state = record { active = []; fenced = λ h. false }

-- The entry that `Install` finds or makes.
abbrev pub state_of : Option AllocationLeaseState → AllocationLeaseState
state_of none = new_state
state_of (some st) = st

unfoldable pub install : MountLeaseRegistry → Text → Text → MountLeaseRegistry × Bool
install r allocation lease_hex =
    let st = state_of (r allocation) in
    if is_empty allocation || is_empty lease_hex
    then (r, false)
    else if st.fenced lease_hex
    then (put r allocation st, false)
    else (put r allocation (record st { active = lease_hex }), true)

-- `Get`: the active session of an allocation, or "".
unfoldable pub active_lease : MountLeaseRegistry → Text → Text
active_lease r allocation = if is_empty allocation then [] else (state_of (r allocation)).active

clear_state : AllocationLeaseState → AllocationLeaseState
clear_state st =
    if is_empty st.active
    then st
    else record { active = []; fenced = λ h. eqb st.active h || st.fenced h }

unfoldable pub clear : MountLeaseRegistry → Text → MountLeaseRegistry
unfolding clear_state
clear r allocation =
    if is_empty allocation
    then r
    else elim (r allocation) [ none ↦ r | some st ↦ put r allocation (clear_state st) ]
