-- ===== src/Control/Placement/Transactions.antt =====
-- The transactions on capacity, and sequences of them: what each call of Reserve, ResizeOwnerCapacity and PurgeAllocation
-- commits at once. A call that waits for a server is several of these steps, between which others may come.
use orlop.Prelude.{
  ℕ, ◌+◌, Text, Bool, true, List, [], ◌∷◌, ◌&&◌, eqb, leb, ◌==◌, is_some, if◌then◌else◌, ok, err,
  ◌≡◌, sym, subst, find, key-find, Option-cases, List-cases, Bool-cases, Result-cases, arith, inl,
  inr,
}
use orlop.Control.Store.{
  Reservation, Server, Store, User, Result, server_key, get_user, user_key,
  count_active_allocations_for_user, vm_tenant,
}
use orlop.Control.Store.Pool.{
  debited, is_available, pick_best_available_server, reserve_capacity, release_capacity,
  create_reservation, list_reservations, delete_reservation, count_placed, create_server_vm,
  delete_server_vm,
}
use orlop.Control.Placement.{
  place_owner, record_placement, resize_owner_capacity, release_reservation, release_reservations,
  release_unused_owner_capacity,
}
use orlop.Prelude.Map.{is_empty}
use orlop.Control.Placement.Pairs.{has_unique_pairs, reserved, Listed}
use orlop.Control.Placement.Snapshot.{Listed-list_reservations}
use orlop.Control.Placement.Ledger.{is_balanced, debit-balanced, update_server-ok}
use orlop.Control.Placement.Conservation.{Kept, resize_all-Kept, release_row-Kept}

-- The call is `place_owner`, `record_placement`, `resize_owner_capacity` or `release_unused_owner_capacity`.
pub data Transaction : Type 0 where
  places : ℕ → Text → ℕ → Transaction
  records : Text → Text → Transaction
  resizes : Text → ℕ → Transaction
  cleans : Text → Text → Transaction

abbrev committed : {A : Type 0} → Store → Result (A × Store) → Store
committed db (ok r) = r.1
committed db (err e) = db

abbrev replaced : Store → Result Store → Store
replaced db (ok db') = db'
replaced db (err e) = db

unfoldable pub commit : Transaction → Store → Store
commit (places now owner size) db = committed db (place_owner now owner size db)
commit (records tenant addr) db = (record_placement tenant addr db).0
commit (resizes user new) db = replaced db (resize_owner_capacity user new db)
commit (cleans user erased) db = committed db (release_unused_owner_capacity user erased db)

unfoldable pub run : List Transaction → Store → Store
run [] db = db
run (t ∷ ts) db = run ts (commit t db)

-- The ledger of a server, with the key of the reservations' table.
abbrev pub is_sound : Text → Store → Bool
is_sound s db = is_balanced s db && has_unique_pairs db.reservations

release_reservation-Kept :
    (s : Text) (u : User) (r : Reservation) (rs : List Reservation) (db db' : Store) (n : ℕ)
    → Kept s u.id (r ∷ rs) db
    → release_reservation u r db ≡ ok (n, db')
    → Kept s u.id rs db'
unfolding release_reservation
release_reservation-Kept s u r rs db db' n (balanced, unique, (first, apart, rest)) done =
    let unchanged : db ≡ db' → Kept s u.id rs db' =
      λ same. subst (Kept s u.id rs) same (balanced, unique, rest) in
    elim (Option-cases (find server_key r.server_id db.server_pool)) [
      | inl e ↦ unchanged (ground (arith, e, done))
      | inr (v, e) ↦
          elim (Bool-cases (count_placed u v.data_addr db.allocations db.server_vms == 0)) [
            | inr f ↦ unchanged (ground (arith, e, done, f))
            | inl f ↦
                elim (Result-cases (
                  release_capacity r.server_id r.size_bytes (record db {
                    reservations = delete_reservation u.id r.server_id db.reservations;
                  }))) [
                    | inl (db1, g) ↦
                        let same : db1 ≡ db' = ground (arith, e, done, f, first, g) in
                        subst (Kept s u.id rs) same (
                          release_row-Kept s u.id r rs db db1
                            (balanced, unique, (first, apart, rest)) g)
                    | inr (x, g) ↦ let bad : ⊥ = ground (arith, e, done, f, first, g) in absurd bad
                  ]
          ]
    ]

release_reservations-Kept :
    (s : Text) (u : User) (rs : List Reservation) (db db' : Store) (n : ℕ)
    → Kept s u.id rs db
    → release_reservations u rs db ≡ ok (n, db')
    → Kept s u.id [] db'
unfolding release_reservations
release_reservations-Kept s u [] db db' n kept done =
    let same : db ≡ db' = ground (arith, done) in subst (Kept s u.id []) same kept
release_reservations-Kept s u (r ∷ rs) db db' n kept done =
    elim (Result-cases (release_reservation u r db)) [
      | inl ((k, db1), g) ↦ elim (Result-cases (release_reservations u rs db1)) [
        | inl ((k', db2), g') ↦
            let same : db2 ≡ db' = ground (arith, done, g, g') in
            subst (Kept s u.id []) same (
              release_reservations-Kept s u rs db1 db2 k'
                (release_reservation-Kept s u r rs db db1 k kept g) g')
        | inr (x, g') ↦ let bad : ⊥ = ground (arith, done, g, g') in absurd bad
      ]
      | inr (x, g) ↦ let bad : ⊥ = ground (arith, done, g) in absurd bad
    ]

reserved_cons :
    (s : Text) (r : Reservation) (rs : List Reservation)
    → reserved s (r ∷ rs) ≡ reserved s rs + (if eqb r.server_id s then r.size_bytes else 0)
unfolding reserved
reserved_cons s r rs = omega arith

-- A first placement: the bytes leave the free space and the row of the reservation comes.
reserve-is_sound :
    (s : Text) (now : ℕ) (owner id : Text) (n : ℕ) (db db1 db2 : Store)
    → is_sound s db ≡ true
    → reserve_capacity id n db ≡ ok db1
    → create_reservation now owner id n db1 ≡ ok db2
    → is_sound s db2 ≡ true
unfolding reserve_capacity create_reservation
reserve-is_sound s now owner id n db db1 db2 sound taken made =
    let test : Server → Bool = λ v. is_available v.status && leb n v.free_bytes in
    let table : List Reservation =
      record { user_id = owner; server_id = id; size_bytes = n; created_at = now }
      ∷ db.reservations in
    let (v, here, passed, shape) = update_server-ok id test (debited n) db db1 taken in
    let balanced : is_balanced s (record db1 { reservations = table }) ≡ true =
      debit-balanced s id n test db db1 table (ground (arith, sound)) (λ v p. ground (arith, p))
        taken
        (reserved_cons s
          (record { user_id = owner; server_id = id; size_bytes = n; created_at = now })
          db.reservations) in
    let same : db2 ≡ record db1 { reservations = table } = ground (arith, made, shape) in
    rw same (ground (arith, balanced, sound, made, shape))

place_owner-is_sound :
    (s : Text) (now : ℕ) (owner : Text) (size : ℕ) (v : Server) (db db' : Store)
    → is_sound s db ≡ true
    → place_owner now owner size db ≡ ok (v, db')
    → is_sound s db' ≡ true
unfolding place_owner get_user
place_owner-is_sound s now owner size v db db' sound done =
    let rs : List Reservation = list_reservations owner db.server_pool db.reservations in
    elim (Option-cases (find user_key owner db.users)) [
      | inl e ↦ let bad : ⊥ = ground (arith, e, done) in absurd bad
      | inr (u, e) ↦ elim (List-cases rs) [
        | inr (r, more, f) ↦
            let same : db ≡ db' =
              ground
                (arith, e, f, done, Option-cases (find server_key r.server_id db.server_pool)) in
            subst (λ d. is_sound s d ≡ true) same sound
        | inl f ↦ elim (Option-cases (pick_best_available_server size db.server_pool)) [
          | inl g ↦ let bad : ⊥ = ground (arith, e, f, g, done) in absurd bad
          | inr (w, g) ↦ elim (Result-cases (reserve_capacity w.id size db)) [
            | inr (x, h) ↦ let bad : ⊥ = ground (arith, e, f, g, h, done) in absurd bad
            | inl (db1, h) ↦ elim (Result-cases (create_reservation now owner w.id size db1)) [
              | inr (x, k) ↦ let bad : ⊥ = ground (arith, e, f, g, h, k, done) in absurd bad
              | inl (db2, k) ↦
                  let same : db2 ≡ db' = ground (arith, e, f, g, h, k, done) in
                  subst (λ d. is_sound s d ≡ true) same
                    (reserve-is_sound s now owner w.id size db db1 db2 sound h k)
            ]
          ]
        ]
      ]
    ]

resize_owner_capacity-is_sound :
    (s user : Text) (new : ℕ) (db db' : Store)
    → is_sound s db ≡ true
    → resize_owner_capacity user new db ≡ ok db'
    → is_sound s db' ≡ true
unfolding resize_owner_capacity get_user
resize_owner_capacity-is_sound s user new db db' sound done =
    let rs : List Reservation = list_reservations user db.server_pool db.reservations in
    elim (Option-cases (find user_key user db.users)) [
      | inl e ↦ let bad : ⊥ = ground (arith, e, done) in absurd bad
      | inr (u, e) ↦
          let (balanced, unique, tt) =
            resize_all-Kept s user new rs db db'
              (
                ground (arith, sound),
                ground (arith, sound),
                Listed-list_reservations user db.server_pool db.reservations
                    (ground (arith, sound)),
              )
              (ground (arith, e, done)) in
          ground (arith, balanced, unique)
    ]

release_unused-is_sound :
    (s user erased : Text) (n : ℕ) (db db' : Store)
    → is_sound s db ≡ true
    → release_unused_owner_capacity user erased db ≡ ok (n, db')
    → is_sound s db' ≡ true
unfolding release_unused_owner_capacity get_user delete_server_vm is_balanced
release_unused-is_sound s user erased n db db' sound done =
    let gone : Store = if is_empty erased then db else delete_server_vm erased db in
    let rs : List Reservation = list_reservations user gone.server_pool gone.reservations in
    let sound' : is_sound s gone ≡ true = elim (Bool-cases (is_empty erased)) [
      | inl e ↦ rw e sound
      | inr e ↦ rw e sound
    ] in
    elim (Option-cases (find user_key user db.users)) [
      | inl e ↦ let bad : ⊥ = ground (arith, e, done) in absurd bad
      | inr (u, e) ↦
          elim (Bool-cases (count_active_allocations_for_user user gone.allocations == 0)) [
            | inr f ↦
                let same : gone ≡ db' = ground (arith, e, f, done) in
                subst (λ d. is_sound s d ≡ true) same sound'
            | inl f ↦ elim (Result-cases (release_reservations u rs gone)) [
              | inr (x, g) ↦ let bad : ⊥ = ground (arith, e, f, g, done) in absurd bad
              | inl ((k, db1), g) ↦
                  let listed : Listed u.id gone.reservations rs =
                    subst (λ w. Listed w gone.reservations rs)
                      (sym (key-find user_key user db.users u e))
                      (Listed-list_reservations user gone.server_pool gone.reservations
                        (ground (arith, sound'))) in
                  let kept =
                    release_reservations-Kept s u rs gone db1 k
                      (ground (arith, sound'), ground (arith, sound'), listed) g in
                  let same : db1 ≡ db' = ground (arith, e, f, g, done) in
                  subst (λ d. is_sound s d ≡ true) same (ground (arith, kept.0, kept.1))
            ]
          ]
    ]

record_placement-is_sound :
    (s tenant addr : Text) (db : Store)
    → is_sound s db ≡ true
    → is_sound s (record_placement tenant addr db).0 ≡ true
unfolding record_placement create_server_vm is_balanced
record_placement-is_sound s tenant addr db sound =
    elim (Bool-cases (is_some (find vm_tenant tenant db.server_vms))) [
      | inl e ↦ rw (e, record_placement) sound
      | inr e ↦ rw (e, record_placement) sound
    ]

commit-is_sound :
    (s : Text) (t : Transaction) (db : Store)
    → is_sound s db ≡ true
    → is_sound s (commit t db) ≡ true
unfolding commit
commit-is_sound s (places now owner size) db sound =
    elim (Result-cases (place_owner now owner size db)) [
      | inl ((v, db'), e) ↦ rw e (place_owner-is_sound s now owner size v db db' sound e)
      | inr (x, e) ↦ rw e sound
    ]
commit-is_sound s (records tenant addr) db sound = record_placement-is_sound s tenant addr db sound
commit-is_sound s (resizes user new) db sound =
    elim (Result-cases (resize_owner_capacity user new db)) [
      | inl (db', e) ↦ rw e (resize_owner_capacity-is_sound s user new db db' sound e)
      | inr (x, e) ↦ rw e sound
    ]
commit-is_sound s (cleans user erased) db sound =
    elim (Result-cases (release_unused_owner_capacity user erased db)) [
      | inl ((n, db'), e) ↦ rw e (release_unused-is_sound s user erased n db db' sound e)
      | inr (x, e) ↦ rw e sound
    ]

-- Whatever transactions of placements, account resizes and purges run one after another, failed ones included, a server
-- whose free bytes and reservations made up its total at first still has the two make up its total, and no owner has
-- two reservations on one server.
pub run-is_sound :
    (s : Text) (ts : List Transaction) (db : Store)
    → is_sound s db ≡ true
    → is_sound s (run ts db) ≡ true
unfolding run
run-is_sound s [] db sound = sound
run-is_sound s (t ∷ ts) db sound = run-is_sound s ts (commit t db) (commit-is_sound s t db sound)
