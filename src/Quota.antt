-- ===== src/Quota.antt =====
-- The quota manager of a server: internal/quota/quota.go. Project ids are 32-bit numbers. What the disk and the quota
-- tools answer are arguments: whether the state file was written, and whether the commands that set a quota ran through.
pub mod Projects
pub mod Ensure
use orlop.Prelude.{
  ℕ, ◌+◌, ◌-◌, ◌%◌, ◌^◌, Text, Bool, true, false, Option, none, some, ◌==◌, not, ◌&&◌,
  if◌then◌else◌, Outcome, ok, err,
}
use orlop.Prelude.Map.{Map, empty, put, remove}

pub record TenantRecord : Type 0 where
  pub project_id : ℕ
  pub size_bytes : ℕ

pub record State : Type 0 where
  pub next_project_id : ℕ
  pub tenants : Map Text TenantRecord

-- The state in memory and the one in the file.
pub record Manager : Type 0 where
  pub st : State
  pub saved : State
  pub enforce : Bool

pub data QuotaError : Type 0 where
  size_mismatch : ℕ → QuotaError
  quota_not_set tenant_not_found not_persisted : QuotaError

-- A state file that does not exist reads as this.
abbrev pub first_state : State
first_state = record { next_project_id = 100; tenants = empty }

-- What a server that starts again loads.
unfoldable pub load : Manager → Manager
load m = record m { st = m.saved }

-- `written`: whether the temporary file was written and renamed.
abbrev pub persist : Bool → Manager → Manager
persist written m = if written then record m { saved = m.st } else m

-- NextProjectID++ and NextProjectID--
abbrev pub up : ℕ → ℕ
up n = (n + 1) % 2 ^ 32

abbrev pub down : ℕ → ℕ
down n = (n + (2 ^ 32 - 1)) % 2 ^ 32

abbrev pub entered : Text → ℕ → State → State
entered tenant size s = record {
  next_project_id = up s.next_project_id;
  tenants = put s.tenants tenant (record { project_id = s.next_project_id; size_bytes = size });
}

abbrev pub withdrawn : Text → State → State
withdrawn tenant s = record {
  next_project_id = down s.next_project_id;
  tenants = remove s.tenants tenant;
}

unfoldable pub rollback : Bool → Text → Manager → Manager
rollback written tenant m = persist written (record m { st = withdrawn tenant m.st })

-- `written` is the answer for the new state, `applied` that of the commands, and `rewritten` that for the rolled-back one.
unfoldable pub allocate : Bool → Bool → Bool → Text → ℕ → Manager → Manager × Outcome QuotaError ℕ
allocate written applied rewritten tenant size m = elim (m.st.tenants tenant) [
  | some rec ↦
      if not (rec.size_bytes == size)
      then (m, err (size_mismatch rec.size_bytes))
      else (m, ok rec.project_id)
  | none ↦
      let m' : Manager = record m { st = entered tenant size m.st } in
      if not written
      then (record m' { st = withdrawn tenant m'.st }, err not_persisted)
      else if not m.enforce
      then (persist true m', ok m.st.next_project_id)
      else if not applied
      then (rollback rewritten tenant (persist true m'), err quota_not_set)
      else (persist true m', ok m.st.next_project_id)
]

abbrev pub resized : Text → TenantRecord → ℕ → State → State
resized tenant rec size s = record s {
  tenants = put s.tenants tenant (record rec { size_bytes = size });
}

unfoldable pub resize : Bool → Bool → Text → ℕ → Manager → Manager × Outcome QuotaError ℕ
resize applied written tenant size m = elim (m.st.tenants tenant) [
  | none ↦ (m, err tenant_not_found)
  | some rec ↦
      if rec.size_bytes == size
      then (m, ok rec.project_id)
      else if m.enforce && not applied
      then (m, err quota_not_set)
      else if not written
      then (
        record m { st = resized tenant rec rec.size_bytes (resized tenant rec size m.st) },
        err not_persisted,
      )
      else (persist true (record m { st = resized tenant rec size m.st }), ok rec.project_id)
]

-- A size that another allocation set is resized.
abbrev pub ensured :
    Bool → Bool → Text → ℕ → Manager × Outcome QuotaError ℕ → Manager × Outcome QuotaError ℕ
ensured applied written tenant size (m, err (size_mismatch existing)) =
    resize applied written tenant size m
ensured applied written tenant size first = first

-- The answers are those of the allocation and then those of the resize.
unfoldable pub ensure_quota :
    Bool → Bool → Bool → Bool → Bool → Text → ℕ → Manager → Manager × Outcome QuotaError ℕ
ensure_quota written applied rewritten applied' written' tenant size m =
    ensured applied' written' tenant size (allocate written applied rewritten tenant size m)

abbrev pub lookup : Text → Manager → Option TenantRecord
lookup tenant m = m.st.tenants tenant
