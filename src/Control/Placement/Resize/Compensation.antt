-- ===== src/Control/Placement/Resize/Compensation.antt =====
-- What a resize of a placed allocation leaves in the pool, when the data plane refuses it and when it succeeds.
use orlop.Prelude.{
  ℕ, ◌+◌, ◌-◌, ◌≤◌, ◌<◌, Text, Bool, true, false, some, ◌&&◌, eqb_refl, ltb, leb, if◌then◌else◌, ok,
  err, ◌≡◌, ◌≢◌, refl, find, find-update_key, update_key, Option-cases, Bool-cases, arith, inl, inr,
}
use orlop.Control.Store.{Allocation, Server, Store, not_found, server_key, allocation_id}
use orlop.Control.Store.Disks.{update_allocation_size, update_where}
use orlop.Control.Store.Pool.{
  update_server, debited, credited, may_grow, reserve_capacity_for_growth, release_capacity,
}
use orlop.Control.Placement.{move_capacity}
use orlop.Control.Placement.Ledger.{is_balanced}
use orlop.Control.Placement.Pairs.{reserved}
use orlop.Control.Placement.Resize.{resize_placed, compensate_pool_delta}

abbrev pub alone : Store → Store
alone db = db

abbrev set : Text → (Server → Server) → Store → Store
set id f db = record db { server_pool = update_key server_key id f db.server_pool }

find-set :
    (id : Text) (f : Server → Server) (db : Store) (v : Server)
    → ((s : Server) → (f s).id ≡ s.id)
    → find server_key id db.server_pool ≡ some v
    → find server_key id (set id f db).server_pool ≡ some (f v)
find-set id f db v keeps here =
    ground (arith, here, eqb_refl id, find-update_key server_key id id f db.server_pool keeps)

update_server-set :
    (id : Text) (test : Server → Bool) (f : Server → Server) (db : Store) (v : Server)
    → find server_key id db.server_pool ≡ some v
    → update_server id test f db ≡ (if test v then ok (set id f db) else err not_found)
unfolding update_server
update_server-set id test f db v here = ground (arith, here, Bool-cases (test v))

-- A resize that the data plane refuses, with nothing else going on, leaves the row of the server and the allocations as
-- they were, where the server is not unavailable and what a shrink gives back fits under its total.
pub refused_resize_is_undone :
    (id user : Text) (old new : ℕ) (server v : Server) (db : Store)
    → find server_key server.id db.server_pool ≡ some v
    → may_grow v.status ≡ true
    → v.free_bytes + (old - new) ≤ v.total_bytes
    → old ≢ new
    → (find server_key server.id (resize_placed alone id user old new server false db).0.server_pool
        ≡ some v)
      × ((resize_placed alone id user old new server false db).0.allocations ≡ db.allocations)
unfolding resize_placed compensate_pool_delta move_capacity reserve_capacity_for_growth
    release_capacity
refused_resize_is_undone id user old new server v db here grows fits apart =
    elim (Bool-cases (ltb old new)) [
      | inl e ↦
          let n : ℕ = new - old in
          let at1 = find-set server.id (debited n) db v (λ _. refl) here in
          let at2 =
            find-set server.id (credited n) (set server.id (debited n) db) (debited n v) (λ _. refl)
              at1 in
          ground (
            arith,
            e,
            grows,
            fits,
            at2,
            update_server-set server.id (λ s. may_grow s.status && leb n s.free_bytes) (debited n)
                db v here,
            update_server-set server.id (λ _. true) (credited n) (set server.id (debited n) db)
                (debited n v) at1,
          )
      | inr e ↦
          let n : ℕ = old - new in
          let at1 = find-set server.id (credited n) db v (λ _. refl) here in
          let at2 =
            find-set server.id (debited n) (set server.id (credited n) db) (credited n v)
              (λ _. refl) at1 in
          ground (
            arith,
            e,
            grows,
            fits,
            apart,
            at2,
            update_server-set server.id (λ _. true) (credited n) db v here,
            update_server-set server.id (λ s. may_grow s.status && leb n s.free_bytes) (debited n)
                (set server.id (credited n) db) (credited n v) at1,
          )
    ]

-- A growth of a placed allocation that succeeds, with nothing else going on, on a server whose free bytes and
-- reservations made up its total before: they are short of the total by just the bytes of the growth afterwards.
pub growth_drifts :
    (id user : Text) (old new : ℕ) (server : Server) (v : Server) (db db' : Store) (a : Allocation)
    → find server_key server.id db.server_pool ≡ some v
    → is_balanced server.id db ≡ true
    → old < new
    → resize_placed alone id user old new server true db ≡ (db', ok a)
    → ((v' : Server) × (find server_key server.id db'.server_pool ≡ some v')
        × (v'.total_bytes ≡ v.total_bytes)
        × (v'.free_bytes + reserved server.id db'.reservations + (new - old) ≡ v'.total_bytes))
      × (is_balanced server.id db' ≡ false)
unfolding resize_placed move_capacity reserve_capacity_for_growth update_allocation_size
    update_where is_balanced
growth_drifts id user old new server v db db' a here balanced grows done =
    let n : ℕ = new - old in
    let at1 = find-set server.id (debited n) db v (λ _. refl) here in
    let updated =
      update_server-set server.id (λ s. may_grow s.status && leb n s.free_bytes) (debited n) db v
        here in
    let row = Option-cases (find allocation_id id db.allocations) in
    (
      (
        debited n v,
        ground (arith, here, grows, done, at1, updated, row),
        refl,
        ground (arith, here, balanced, grows, done, at1, updated, row),
      ),
      ground (arith, here, balanced, grows, done, at1, updated, row),
    )
