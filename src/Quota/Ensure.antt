-- ===== src/Quota/Ensure.antt =====
-- What a quota that is ensured leaves on record.
use orlop.Prelude.{ℕ, Text, Bool, some, eqb_refl, ok, ◌≡◌, arith, Bool-cases, Option-cases}
use orlop.Quota.{Manager, lookup, allocate, resize, ensure_quota}

-- A quota that is ensured is the tenant's recorded size, in memory and in the file, under the project id of the answer,
-- where memory and file agreed.
pub ensure_quota_lem :
    (w a w' a' w'' : Bool) (t : Text) (size id : ℕ) (m m' : Manager)
    → m.saved ≡ m.st
    → ensure_quota w a w' a' w'' t size m ≡ (m', ok id)
    → (lookup t m' ≡ some (record { project_id = id; size_bytes = size })) × (m'.saved ≡ m'.st)
unfolding ensure_quota allocate resize
ensure_quota_lem w a w' a' w'' t size id m m' agree done =
    ground (arith, agree, done, eqb_refl t, Option-cases (m.st.tenants t), Bool-cases m.enforce)
