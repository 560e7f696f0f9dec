-- ===== src/Control/Placement/Conservation.antt =====
-- Every transaction on the capacity of servers keeps the ledger of each of them.
use orlop.Prelude.{
  ℕ, ◌-◌, Text, true, List, [], ◌∷◌, ◌&&◌, ltb, leb, ◌==◌, ok, ◌≡◌, subst, update_key, Bool-cases,
  Result-cases, arith, inl, inr,
}
use orlop.Control.Store.{Reservation, Store, server_key}
use orlop.Control.Store.Pool.{
  update_server, debited, credited, may_grow, reserve_capacity_for_growth, release_capacity,
  resize_reservation, delete_reservation,
}
use orlop.Control.Placement.{move_capacity, resize_one, resize_all}
use orlop.Control.Placement.Pairs.{
  has_unique_pairs, Listed, unique-resize_reservation, reserved-resize_reservation,
  unique-delete_reservation, reserved-delete_reservation,
}
use orlop.Control.Placement.Snapshot.{Listed-resize_reservation, Listed-delete_reservation}
use orlop.Control.Placement.Ledger.{is_balanced, debit-balanced, credit-balanced, update_server-ok}

-- What the loops over an owner's reservations keep: the ledger of a server, the table's key, and the rows still to
-- come as they were read.
abbrev pub Kept : Text → Text → List Reservation → Store → Type 0
Kept s user rs db =
    (is_balanced s db ≡ true)
    × (has_unique_pairs db.reservations ≡ true)
    × Listed user db.reservations rs

resize_one-Kept :
    (s user : Text) (new : ℕ) (r : Reservation) (rs : List Reservation) (db db' : Store)
    → Kept s user (r ∷ rs) db
    → resize_one user new r db ≡ ok db'
    → Kept s user rs db'
unfolding resize_one move_capacity reserve_capacity_for_growth release_capacity
resize_one-Kept s user new r rs db db' (balanced, unique, (first, apart, rest)) done =
    let table : List Reservation = resize_reservation user r.server_id new db.reservations in
    let sums = reserved-resize_reservation user r.server_id new s r db.reservations unique first in
    let unique' = unique-resize_reservation user r.server_id new db.reservations unique in
    let rest' = Listed-resize_reservation user db.reservations r.server_id new rs apart rest in
    elim (Bool-cases (r.size_bytes == new)) [
      | inl e ↦
          let same : db ≡ db' = ground (arith, e, done) in
          subst (Kept s user rs) same (balanced, unique, rest)
      | inr e ↦ elim (Bool-cases (ltb r.size_bytes new)) [
        | inl f ↦
            elim (Result-cases (reserve_capacity_for_growth r.server_id (new - r.size_bytes) db)) [
              | inl (db1, g) ↦
                  let (v, here, passed, shape) =
                    update_server-ok r.server_id
                      (λ s. may_grow s.status && leb (new - r.size_bytes) s.free_bytes)
                      (debited (new - r.size_bytes)) db db1 g in
                  let same : record db1 { reservations = table } ≡ db' =
                    ground (arith, done, e, f, g, shape) in
                  subst (Kept s user rs) same (
                    debit-balanced s r.server_id (new - r.size_bytes)
                        (λ s. may_grow s.status && leb (new - r.size_bytes) s.free_bytes) db db1
                        table balanced (λ v p. ground (arith, p)) g (ground (arith, sums, f)),
                    unique',
                    rest',
                  )
              | inr (x, g) ↦ let bad : ⊥ = ground (arith, done, e, f, g) in absurd bad
            ]
        | inr f ↦ elim (Result-cases (release_capacity r.server_id (r.size_bytes - new) db)) [
          | inl (db1, g) ↦
              let (v, here, passed, shape) =
                update_server-ok r.server_id (λ _. true) (credited (r.size_bytes - new)) db db1 g in
              let same : record db1 { reservations = table } ≡ db' =
                ground (arith, done, e, f, g, shape) in
              subst (Kept s user rs) same (
                credit-balanced s r.server_id (r.size_bytes - new) db db1 table balanced g
                    (ground (arith, sums, f, e)),
                unique',
                rest',
              )
          | inr (x, g) ↦ let bad : ⊥ = ground (arith, done, e, f, g) in absurd bad
        ]
      ]
    ]

pub resize_all-Kept :
    (s user : Text) (new : ℕ) (rs : List Reservation) (db db' : Store)
    → Kept s user rs db
    → resize_all user new rs db ≡ ok db'
    → Kept s user [] db'
unfolding resize_all
resize_all-Kept s user new [] db db' kept done =
    let same : db ≡ db' = ground (arith, done) in subst (Kept s user []) same kept
resize_all-Kept s user new (r ∷ rs) db db' kept done =
    elim (Result-cases (resize_one user new r db)) [
      | inl (db1, g) ↦
          resize_all-Kept s user new rs db1 db' (resize_one-Kept s user new r rs db db1 kept g)
            (ground (arith, done, g))
      | inr (x, g) ↦ let bad : ⊥ = ground (arith, done, g) in absurd bad
    ]

-- The body of the release: the row goes, and its bytes go back.
pub release_row-Kept :
    (s user : Text) (r : Reservation) (rs : List Reservation) (db db' : Store)
    → Kept s user (r ∷ rs) db
    → release_capacity r.server_id r.size_bytes
        (record db { reservations = delete_reservation user r.server_id db.reservations })
      ≡ ok db'
    → Kept s user rs db'
unfolding release_capacity update_server
release_row-Kept s user r rs db db' (balanced, unique, (first, apart, rest)) done =
    let table : List Reservation = delete_reservation user r.server_id db.reservations in
    let db1 : Store = record db {
      server_pool = update_key server_key r.server_id (credited r.size_bytes) db.server_pool;
    } in
    let (v, here, passed, shape) =
      update_server-ok r.server_id (λ _. true) (credited r.size_bytes)
        (record db { reservations = table }) db' done in
    let same : record db1 { reservations = table } ≡ db' = ground (arith, shape) in
    subst (Kept s user rs) same (
      credit-balanced s r.server_id r.size_bytes db db1 table balanced (ground (arith, here))
          (reserved-delete_reservation user r.server_id s r db.reservations unique first),
      unique-delete_reservation user r.server_id db.reservations unique,
      Listed-delete_reservation user db.reservations r.server_id rs apart rest,
    )
