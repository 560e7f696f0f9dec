-- ===== src/Fence/Resurrection.antt =====
-- What the registry promises of displaced sessions.
use orlop.Prelude.{Text, true, false, List, [], ◌∷◌, ◌≡◌, ◌≢◌, eqb, eqb_iff, arith, if◌then◌else◌}
use orlop.Prelude.Map.{is_empty}
use orlop.Fence.{MountLeaseRegistry, state_of, install, active_lease, clear}

-- A call on the registry.
pub data Call : Type 0 where
  installs : Text → Text → Call
  clears : Text → Call

unfoldable pub step : MountLeaseRegistry → Call → MountLeaseRegistry
step r (installs a h) = (install r a h).0
step r (clears a) = clear r a

unfoldable pub run : MountLeaseRegistry → List Call → MountLeaseRegistry
run r [] = r
run r (c ∷ cs) = run (step r c) cs

-- `h` is barred from `a`.
pub record IsFenced (a h : Text) (r : MountLeaseRegistry) : Type 0 where
  pub barred : (state_of (r a)).fenced h ≡ true
  pub idle : (state_of (r a)).active ≢ h

install-IsFenced :
    (a h b g : Text) (r : MountLeaseRegistry) → IsFenced a h r → IsFenced a h (install r b g).0
unfolding install
install-IsFenced a h b g r f = record {
  barred = ground (arith, f.barred, eqb_iff b a);
  idle = λ e. ground (arith, f.barred, f.idle, eqb_iff b a);
}

clear-IsFenced :
    (a h b : Text) (r : MountLeaseRegistry) → h ≢ [] → IsFenced a h r → IsFenced a h (clear r b)
unfolding clear
clear-IsFenced a h b r n f = record {
  barred = ground (arith, f.barred, eqb_iff b a);
  idle = λ e. ground (arith, n, f.barred, f.idle, eqb_iff b a);
}

step-IsFenced :
    (a h : Text) (r : MountLeaseRegistry) (c : Call)
    → h ≢ []
    → IsFenced a h r
    → IsFenced a h (step r c)
unfolding step
step-IsFenced a h r (installs b g) n f = install-IsFenced a h b g r f
step-IsFenced a h r (clears b) n f = clear-IsFenced a h b r n f

run-IsFenced :
    (a h : Text) (r : MountLeaseRegistry) (cs : List Call)
    → h ≢ []
    → IsFenced a h r
    → IsFenced a h (run r cs)
unfolding run
run-IsFenced a h r [] n f = f
run-IsFenced a h r (c ∷ cs) n f = run-IsFenced a h (step r c) cs n (step-IsFenced a h r c n f)

clear_bars :
    (a h : Text) (r : MountLeaseRegistry) → active_lease r a ≡ h → h ≢ [] → IsFenced a h (clear r a)
unfolding active_lease clear
clear_bars a h r e n = record {
  barred = ground (arith, eqb_iff a a, eqb_iff h h, n);
  idle = λ x. ground (arith, eqb_iff a a, n);
}

install_barred : (a h : Text) (r : MountLeaseRegistry) → IsFenced a h r → (install r a h).1 ≡ false
unfolding install
install_barred a h r f = ground (arith, f.barred)

not-active_of_barred :
    (a h : Text) (r : MountLeaseRegistry) → h ≢ [] → IsFenced a h r → active_lease r a ≢ h
unfolding active_lease
not-active_of_barred a h r n f e = ground (arith, n, f.idle)

-- Once the active session of an allocation is cleared, no sequence of further installs and clears,
-- on any allocations, lets that session in again: installing it is refused and it is not active.
pub cleared_never_resurrects :
    (r : MountLeaseRegistry) (a h : Text) (cs : List Call)
    → active_lease r a ≡ h
    → h ≢ []
    → ((install (run (clear r a) cs) a h).1 ≡ false) × (active_lease (run (clear r a) cs) a ≢ h)
cleared_never_resurrects r a h cs e n =
    let f = run-IsFenced a h (clear r a) cs n (clear_bars a h r e n) in
    (install_barred a h (run (clear r a) cs) f, not-active_of_barred a h (run (clear r a) cs) n f)

-- A clear bars the active session and no other.
pub install_other-clear :
    (r : MountLeaseRegistry) (a h g : Text)
    → active_lease r a ≡ h
    → is_empty a ≡ false
    → is_empty g ≡ false
    → g ≢ h
    → (state_of (r a)).fenced g ≡ false
    → (install (clear r a) a g).1 ≡ true
unfolding install clear active_lease
install_other-clear r a h g was named other differ free =
    ground (arith, was, named, other, differ, free, eqb_iff a a, eqb_iff h g)

-- An install that succeeds makes its session the active one, whatever session was active before; it
-- leaves what every other allocation has, and bars no session.
pub install_takes_over :
    (r : MountLeaseRegistry) (a h b g : Text)
    → (install r a h).1 ≡ true
    → (active_lease (install r a h).0 b ≡ (if eqb a b then h else active_lease r b))
      × ((state_of ((install r a h).0 b)).fenced g ≡ (state_of (r b)).fenced g)
unfolding install active_lease
install_takes_over r a h b g e = (ground (arith, eqb_iff a b), ground (arith, eqb_iff a b))
