-- ===== src/Quota/Projects.antt =====
-- Project ids over sequences of calls and restarts.
use orlop.Prelude.{
  ℕ, ◌+◌, ◌^◌, ◌<◌, Text, Bool, none, some, List, [], ◌∷◌, length, ◌==◌, not, ◌&&◌, ◌||◌, eqb_iff,
  eqb_refl, Outcome, ok, err, ◌≡◌, ◌≢◌, ◌⊎◌, refl, sym, subst, arith, inl, inr, Bool-cases,
  Option-cases,
}
use orlop.Quota.{
  TenantRecord, State, Manager, QuotaError, first_state, load, entered, withdrawn, rollback,
  allocate, resized, resize, ensured, ensure_quota, lookup, size_mismatch, quota_not_set,
  tenant_not_found, not_persisted,
}

-- Every tenant's id has been given out, and to no other tenant.
pub record Distinct (s : State) : Type 0 where
  pub given :
      (t : Text) (r : TenantRecord) → s.tenants t ≡ some r → r.project_id < s.next_project_id
  pub apart :
      (t u : Text) (r q : TenantRecord)
      → s.tenants t ≡ some r
      → s.tenants u ≡ some q
      → r.project_id ≡ q.project_id
      → t ≡ u

-- `n` ids are left at least.
abbrev Roomy : ℕ → State → Type 0
Roomy n s = Distinct s × (s.next_project_id + n < 2 ^ 32)

-- So in memory and in the file.
abbrev pub Sound : ℕ → Manager → Type 0
Sound n m = Roomy n m.st × Roomy n m.saved

entered-Distinct :
    (t : Text) (size : ℕ) (s : State)
    → Distinct s
    → s.tenants t ≡ none
    → s.next_project_id + 1 < 2 ^ 32
    → Distinct (entered t size s)
entered-Distinct t size s d free room = record {
  given = λ u r e. ground (arith, e, room, d.given u r, eqb_iff t u);
  apart = λ u v r q e f same.
      ground
        (arith, e, f, same, eqb_iff t u, eqb_iff t v, d.given u r, d.given v q, d.apart u v r q);
}

resized-Distinct :
    (t : Text) (rec old : TenantRecord) (size : ℕ) (s : State)
    → Distinct s
    → s.tenants t ≡ some old
    → old.project_id ≡ rec.project_id
    → Distinct (resized t rec size s)
resized-Distinct t rec old size s d here id = record {
  given = λ u r e. ground (arith, e, here, id, d.given u r, d.given t old here, eqb_iff t u);
  apart = λ u v r q e f same. ground (
    arith,
    e,
    f,
    same,
    id,
    eqb_iff t u,
    eqb_iff t v,
    d.apart u v r q,
    d.apart t v old q here,
    d.apart u t r old,
  );
}

withdrawn-Distinct :
    (t : Text) (size : ℕ) (s : State)
    → Distinct s
    → s.tenants t ≡ none
    → s.next_project_id + 1 < 2 ^ 32
    → Distinct (withdrawn t (entered t size s))
withdrawn-Distinct t size s d free room = record {
  given = λ u r e. ground (arith, e, room, d.given u r, eqb_iff t u);
  apart = λ u v r q e f same. ground (arith, e, f, same, eqb_iff t u, eqb_iff t v, d.apart u v r q);
}

-- The states that an allocation of a new tenant may leave, in memory or in the file.
abbrev Changed : Text → ℕ → State → State → Type 0
Changed t size s s' = (s' ≡ entered t size s) ⊎ (s' ≡ withdrawn t (entered t size s))

allocate-states :
    (written applied rewritten : Bool) (t : Text) (size : ℕ) (m m' : Manager)
    (r : Outcome QuotaError ℕ)
    → allocate written applied rewritten t size m ≡ (m', r)
    → ((m'.st ≡ m.st) ⊎ ((m.st.tenants t ≡ none) × Changed t size m.st m'.st))
      × ((m'.saved ≡ m.saved) ⊎ ((m.st.tenants t ≡ none) × Changed t size m.st m'.saved))
unfolding allocate rollback
allocate-states written applied rewritten t size m m' r done = (
  ground (arith, done, Option-cases (m.st.tenants t), Bool-cases m.enforce),
  ground (arith, done, Option-cases (m.st.tenants t), Bool-cases m.enforce),
)

Changed-Roomy :
    (n : ℕ) (t : Text) (size : ℕ) (s s' : State)
    → Roomy (n + 1) s
    → s.tenants t ≡ none
    → Changed t size s s'
    → Roomy n s'
Changed-Roomy n t size s s' (d, room) free (inl e) =
    subst (Roomy n) (sym e)
      (entered-Distinct t size s d free (omega (arith, room)), omega (arith, room))
Changed-Roomy n t size s s' (d, room) free (inr e) =
    subst (Roomy n) (sym e)
      (withdrawn-Distinct t size s d free (omega (arith, room)), omega (arith, room))

-- A state that is another as it was, or a change of the first.
left_Roomy :
    (n : ℕ) (t : Text) (size : ℕ) (s : State)
    → Roomy (n + 1) s
    → {old : State} (s' : State) → Roomy (n + 1) old
    → (s' ≡ old) ⊎ ((s.tenants t ≡ none) × Changed t size s s')
    → Roomy n s'
left_Roomy n t size s good s' (d, room) (inl e) = subst (Roomy n) (sym e) (d, omega (arith, room))
left_Roomy n t size s good s' old (inr (free, change)) =
    Changed-Roomy n t size s s' good free change

allocate-Sound :
    (n : ℕ) (written applied rewritten : Bool) (t : Text) (size : ℕ) (m : Manager)
    → Sound (n + 1) m
    → Sound n (allocate written applied rewritten t size m).0
allocate-Sound n written applied rewritten t size m (good, good') =
    let states =
      allocate-states written applied rewritten t size m
        (allocate written applied rewritten t size m).0
        (allocate written applied rewritten t size m).1 refl in
    (
      left_Roomy n t size m.st good (allocate written applied rewritten t size m).0.st good
          states.0,
      left_Roomy n t size m.st good (allocate written applied rewritten t size m).0.saved good'
          states.1,
    )

-- The states that a resize may leave: as it was, with the new size, or with the old one again.
abbrev Resized : Text → ℕ → State → State → Type 0
Resized t size s s' =
    (rec : TenantRecord) × (s.tenants t ≡ some rec)
    × ((s' ≡ resized t rec size s) ⊎ (s' ≡ resized t rec rec.size_bytes (resized t rec size s)))

resize-states :
    (applied written : Bool) (t : Text) (size : ℕ) (m m' : Manager) (r : Outcome QuotaError ℕ)
    → resize applied written t size m ≡ (m', r)
    → ((m'.st ≡ m.st) ⊎ Resized t size m.st m'.st)
      × ((m'.saved ≡ m.saved) ⊎ Resized t size m.st m'.saved)
unfolding resize
resize-states applied written t size m m' r done = elim (Option-cases (m.st.tenants t)) [
  | inl e ↦ (inl (ground (arith, e, done)), inl (ground (arith, e, done)))
  | inr (rec, e) ↦ elim (Bool-cases (rec.size_bytes == size || (m.enforce && not applied))) [
    | inl f ↦ (inl (ground (arith, e, done, f)), inl (ground (arith, e, done, f)))
    | inr f ↦ elim (Bool-cases written) [
      | inl g ↦ (
        inr (rec, e, inl (ground (arith, e, done, f, g))),
        inr (rec, e, inl (ground (arith, e, done, f, g))),
      )
      | inr g ↦
          (inr (rec, e, inr (ground (arith, e, done, f, g))), inl (ground (arith, e, done, f, g)))
    ]
  ]
]

Resized-Roomy :
    (n : ℕ) (t : Text) (size : ℕ) (s : State)
    → Roomy n s
    → {old : State} (s' : State) → Roomy n old
    → (s' ≡ old) ⊎ Resized t size s s'
    → Roomy n s'
Resized-Roomy n t size s good s' old (inl e) = subst (Roomy n) (sym e) old
Resized-Roomy n t size s (d, room) s' old (inr (rec, here, inl e)) =
    subst (Roomy n) (sym e) (resized-Distinct t rec rec size s d here refl, room)
Resized-Roomy n t size s (d, room) s' old (inr (rec, here, inr e)) =
    let now : TenantRecord = record rec { size_bytes = size } in
    subst (Roomy n) (sym e) (
      resized-Distinct t rec now rec.size_bytes (resized t rec size s)
          (resized-Distinct t rec rec size s d here refl) (ground (arith, eqb_refl t)) refl,
      room,
    )

resize-Sound :
    (n : ℕ) (applied written : Bool) (t : Text) (size : ℕ) (m : Manager)
    → Sound n m
    → Sound n (resize applied written t size m).0
resize-Sound n applied written t size m (good, good') =
    let after = resize applied written t size m in
    let states = resize-states applied written t size m after.0 after.1 refl in
    (
      Resized-Roomy n t size m.st good after.0.st good states.0,
      Resized-Roomy n t size m.st good after.0.saved good' states.1,
    )

ensure_quota-either :
    (w a w' a' w'' : Bool) (t : Text) (size : ℕ) (m : Manager)
    → (ensure_quota w a w' a' w'' t size m ≡ allocate w a w' t size m)
      ⊎ (ensure_quota w a w' a' w'' t size m ≡ resize a' w'' t size (allocate w a w' t size m).0)
unfolding ensure_quota
ensure_quota-either w a w' a' w'' t size m = either (allocate w a w' t size m)
  where
    either :
        (first : Manager × Outcome QuotaError ℕ)
        → (ensured a' w'' t size first ≡ first)
          ⊎ (ensured a' w'' t size first ≡ resize a' w'' t size first.0)
    either (m', ok id) = inl refl
    either (m', err (size_mismatch existing)) = inr refl
    either (m', err quota_not_set) = inl refl
    either (m', err tenant_not_found) = inl refl
    either (m', err not_persisted) = inl refl

ensure_quota-Sound :
    (n : ℕ) (w a w' a' w'' : Bool) (t : Text) (size : ℕ) (m : Manager)
    → Sound (n + 1) m
    → Sound n (ensure_quota w a w' a' w'' t size m).0
ensure_quota-Sound n w a w' a' w'' t size m sound =
    let after = allocate-Sound n w a w' t size m sound in
    elim (ensure_quota-either w a w' a' w'' t size m) [
      | inl e ↦ subst (λ r. Sound n r.0) (sym e) after
      | inr e ↦
          subst (λ r. Sound n r.0) (sym e)
            (resize-Sound n a' w'' t size (allocate w a w' t size m).0 after)
    ]

-- A call with what the disk and the tools answer to it, or a restart of the server.
pub data Call : Type 0 where
  allocates : Bool → Bool → Bool → Text → ℕ → Call
  resizes : Bool → Bool → Text → ℕ → Call
  ensures : Bool → Bool → Bool → Bool → Bool → Text → ℕ → Call
  restarts : Call

abbrev step : Call → Manager → Manager
step (allocates w a w' t size) m = (allocate w a w' t size m).0
step (resizes a w t size) m = (resize a w t size m).0
step (ensures w a w' a' w'' t size) m = (ensure_quota w a w' a' w'' t size m).0
step restarts m = load m

unfoldable pub run : List Call → Manager → Manager
run [] m = m
run (c ∷ cs) m = run cs (step c m)

weaker : (n : ℕ) (s : State) → Roomy (n + 1) s → Roomy n s
weaker n s (d, room) = (d, omega (arith, room))

step-Sound : (n : ℕ) (c : Call) (m : Manager) → Sound (n + 1) m → Sound n (step c m)
unfolding load
step-Sound n (allocates w a w' t size) m sound = allocate-Sound n w a w' t size m sound
step-Sound n (resizes a w t size) m (good, good') =
    resize-Sound n a w t size m (weaker n m.st good, weaker n m.saved good')
step-Sound n (ensures w a w' a' w'' t size) m sound =
    ensure_quota-Sound n w a w' a' w'' t size m sound
step-Sound n restarts m (good, good') = (weaker n m.saved good', weaker n m.saved good')

run-Sound : (cs : List Call) (m : Manager) → Sound (length cs) m → Sound 0 (run cs m)
unfolding run
run-Sound [] m sound = sound
run-Sound (c ∷ cs) m (good, good') = run-Sound cs (step c m) (
    step-Sound (length cs) c m ((good.0, omega (arith, good.1)), (good'.0, omega (arith, good'.1))))

first-Distinct : Distinct first_state
first-Distinct = record {
  given = λ t r e. ground (arith, e);
  apart = λ t u r q e f same. ground (arith, e);
}

-- Whatever calls and restarts follow on a new state file, and whatever the disk and the quota tools answer to them, two
-- tenants never have one project id, while the calls are fewer than 2 ^ 32 - 100.
pub projects_are_distinct :
    (enforce : Bool) (cs : List Call) (t u : Text) (r q : TenantRecord)
    → 100 + length cs < 2 ^ 32
    → lookup t (run cs (record { st = first_state; saved = first_state; enforce = enforce }))
      ≡ some r
    → lookup u (run cs (record { st = first_state; saved = first_state; enforce = enforce }))
      ≡ some q
    → t ≢ u
    → r.project_id ≢ q.project_id
projects_are_distinct enforce cs t u r q few e f differ =
    let ((d, room), good') =
      run-Sound cs (record { st = first_state; saved = first_state; enforce = enforce })
        ((first-Distinct, omega (arith, few)), (first-Distinct, omega (arith, few))) in
    λ same. differ (d.apart t u r q e f same)
