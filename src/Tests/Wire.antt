-- ===== src/Tests/Wire.antt =====
-- The theorems on frames, packed chunks and quotas at concrete values.
use orlop.Prelude.{
  ℕ, Text, text, text_dec, true, false, some, List, [], ◌∷◌, ◌++◌, take, ok, err, ◌≡◌, ◌≢◌, refl,
  put_uint, arith,
}
use orlop.Wire.Frame.{Frame, eof, header, write_frame, read_frame}
use orlop.Wire.Frame.RoundTrip.{read_frame-write_frame, read_frame-truncated}
use orlop.Manifest.Db.{ChunkRef}
use orlop.Manifest.Chunks.Packing.{pack_chunks, unpack_chunks, unpack_chunks-pack_chunks}
use orlop.Quota.{Manager, first_state, allocate, resize, ensure_quota, load, rollback, lookup}
use orlop.Quota.Projects.{Call, allocates, restarts, run, projects_are_distinct}

-- A ping with the payload "hi".
abbrev ping : Frame
ping = record { op = 0x04; flags = 0; rid = 258; payload = text "hi" }

ping_bytes :
    write_frame ping
    ≡ ok (4 ∷ 0 ∷ 0 ∷ 0 ∷ 0 ∷ 0 ∷ 0 ∷ 0 ∷ 1 ∷ 2 ∷ 0 ∷ 0 ∷ 0 ∷ 0 ∷ 0 ∷ 2 ∷ text "hi")
unfolding write_frame put_uint
ping_bytes = refl

read_frame-write_frame_example :
    (bytes : List ℕ) × (write_frame ping ≡ ok bytes)
    × (read_frame (bytes ++ text "next") ≡ ok (ping, text "next"))
read_frame-write_frame_example =
    read_frame-write_frame ping (text "next") refl (omega arith) (omega arith)

read_frame-truncated_example : read_frame (take 16 (header ping ++ text "hi")) ≡ err eof
read_frame-truncated_example =
    read_frame-truncated ping 16 refl (omega arith) (omega arith) (omega arith)

-- A hash of 32 bytes.
abbrev chunk : ChunkRef
chunk = record { hash = text "0123456789abcdef0123456789abcdef"; offset = 65536; len = 4096 }

unpack_chunks-pack_chunks_example :
    unpack_chunks (pack_chunks (chunk ∷ chunk ∷ [])) ≡ ok (chunk ∷ chunk ∷ [])
unpack_chunks-pack_chunks_example = unpack_chunks-pack_chunks (chunk ∷ chunk ∷ []) refl

abbrev tenant_b : Text
tenant_b = 98 ∷ []

abbrev tenant_c : Text
tenant_c = 99 ∷ []

abbrev id_b : ℕ
id_b = 100

abbrev id_c : ℕ
id_c = 101

abbrev first : Manager
first = record { st = first_state; saved = first_state; enforce = true }

-- A refused allocation, one whose rollback is not written, a restart, and one that succeeds.
abbrev calls : List Call
calls =
    allocates true false true (text "a") 5
    ∷ allocates true false false tenant_b 5
    ∷ restarts
    ∷ allocates true true true tenant_c 5
    ∷ []

b_at : lookup tenant_b (run calls first) ≡ some (record { project_id = 100; size_bytes = 5 })
unfolding run allocate rollback load text_dec
b_at = refl

c_at : lookup tenant_c (run calls first) ≡ some (record { project_id = 101; size_bytes = 5 })
unfolding run allocate rollback load text_dec
c_at = refl

b_is_not_c : tenant_b ≢ tenant_c
b_is_not_c e = ground (arith, e)

projects_are_distinct_example : id_b ≢ id_c
projects_are_distinct_example =
    projects_are_distinct true calls tenant_b tenant_c (record { project_id = 100; size_bytes = 5 })
      (record { project_id = 101; size_bytes = 5 }) (omega arith) b_at c_at b_is_not_c

abbrev ensured_once : Manager
ensured_once = (ensure_quota true true true true true (text "a") 5 first).0

ensured_again :
    ensure_quota true true true true true (text "a") 9 ensured_once
    ≡ ((ensure_quota true true true true true (text "a") 9 ensured_once).0, ok 100)
unfolding ensure_quota allocate resize text_dec
ensured_again = refl

once_agrees : ensured_once.saved ≡ ensured_once.st
unfolding ensure_quota allocate
once_agrees = refl
