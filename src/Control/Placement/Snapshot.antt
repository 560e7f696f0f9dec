-- ===== src/Control/Placement/Snapshot.antt =====
-- `list_reservations` reads each of the owner's rows once, and a change of one row leaves the others as they were read.
use orlop.Prelude.{
  precedes, ℕ, Text, true, false, none, some, List, [], ◌∷◌, ◌&&◌, ◌||◌, eqb, eqb_iff, eqb_refl,
  ltb, ◌==◌, is_some, ◌≡◌, refl, find, Option-cases, Bool-cases, arith, ap, inl, inr,
}
use orlop.Control.Store.{Reservation, Server, server_key}
use orlop.Control.Store.Pool.{
  find_reservation, resize_reservation, delete_reservation, insert_ordered, list_reservations,
}
use orlop.Control.Placement.Pairs.{
  has_unique_pairs, is_listed, Listed, find-resize_other, find-delete_other,
}

is_listed-insert_ordered :
    (s : Text) (r : Reservation) (rs : List Reservation)
    → is_listed s (insert_ordered r rs) ≡ (eqb r.server_id s || is_listed s rs)
unfolding is_listed insert_ordered
is_listed-insert_ordered s r [] = refl
is_listed-insert_ordered s r (q ∷ rs) = ground (arith, is_listed-insert_ordered s r rs)

module _ (user : Text) (table : List Reservation) where
  Listed-insert_ordered :
      (r : Reservation) (rs : List Reservation)
      → find_reservation user r.server_id table ≡ some r
      → is_listed r.server_id rs ≡ false
      → Listed user table rs
      → Listed user table (insert_ordered r rs)
  unfolding insert_ordered is_listed
  Listed-insert_ordered r [] here fresh all = (here, refl, tt)
  Listed-insert_ordered r (q ∷ rs) here fresh (first, apart, rest) =
      elim (Bool-cases (
        ltb q.created_at r.created_at
        || (q.created_at == r.created_at && precedes q.server_id r.server_id))) [
          | inl e ↦ rw e (
            first,
            ground (
              arith,
              apart,
              fresh,
              is_listed-insert_ordered q.server_id r rs,
              eqb_iff q.server_id r.server_id,
              eqb_iff r.server_id q.server_id,
            ),
            Listed-insert_ordered r rs here (ground (arith, fresh)) rest,
          )
          | inr e ↦ rw e (here, fresh, (first, apart, rest))
        ]

  is_listed-Listed :
      (s : Text) (rs : List Reservation)
      → find_reservation user s table ≡ none
      → Listed user table rs
      → is_listed s rs ≡ false
  unfolding is_listed
  is_listed-Listed s [] e all = refl
  is_listed-Listed s (r ∷ rs) e (first, apart, rest) =
      ground (arith, e, first, is_listed-Listed s rs e rest, eqb_iff r.server_id s)

  Listed-extended :
      (q : Reservation) (rs : List Reservation)
      → (eqb q.user_id user && is_listed q.server_id rs) ≡ false
      → Listed user table rs
      → Listed user (q ∷ table) rs
  unfolding find_reservation is_listed
  Listed-extended q [] e all = tt
  Listed-extended q (r ∷ rs) e (first, apart, rest) = (
    ground (arith, e, first, eqb_iff q.server_id r.server_id, eqb_iff r.server_id q.server_id),
    apart,
    Listed-extended q rs (ground (arith, e)) rest,
  )

  pub Listed-resize_reservation :
      (server : Text) (new : ℕ) (rs : List Reservation)
      → is_listed server rs ≡ false
      → Listed user table rs
      → Listed user (resize_reservation user server new table) rs
  unfolding is_listed
  Listed-resize_reservation server new [] e all = tt
  Listed-resize_reservation server new (r ∷ rs) e (first, apart, rest) = (
    ground (
      arith,
      e,
      first,
      find-resize_other user server r.server_id new table,
      eqb_iff server r.server_id,
      eqb_iff r.server_id server,
    ),
    apart,
    Listed-resize_reservation server new rs (ground (arith, e)) rest,
  )

  pub Listed-delete_reservation :
      (server : Text) (rs : List Reservation)
      → is_listed server rs ≡ false
      → Listed user table rs
      → Listed user (delete_reservation user server table) rs
  unfolding is_listed
  Listed-delete_reservation server [] e all = tt
  Listed-delete_reservation server (r ∷ rs) e (first, apart, rest) = (
    ground (
      arith,
      e,
      first,
      find-delete_other user server r.server_id table,
      eqb_iff server r.server_id,
      eqb_iff r.server_id server,
    ),
    apart,
    Listed-delete_reservation server rs (ground (arith, e)) rest,
  )

-- What `list_reservations` reads is listed.
pub Listed-list_reservations :
    (user : Text) (pool : List Server) (table : List Reservation)
    → has_unique_pairs table ≡ true
    → Listed user table (list_reservations user pool table)
unfolding list_reservations find_reservation
Listed-list_reservations user pool [] e = tt
Listed-list_reservations user pool (r ∷ table) e =
    let ih = Listed-list_reservations user pool table (ground (arith, e)) in
    let none_left : is_some (find_reservation r.user_id r.server_id table) ≡ false =
      ground (arith, e) in
    let apart : (eqb r.user_id user && is_listed r.server_id (list_reservations user pool table))
        ≡ false =
      elim (Bool-cases (eqb r.user_id user)) [
        | inl f ↦
            let same : find_reservation r.user_id r.server_id table
                ≡ find_reservation user r.server_id table =
              ap (λ u. find_reservation u r.server_id table) ((eqb_iff r.user_id user).0 f) in
            rw f (
              is_listed-Listed user table r.server_id (list_reservations user pool table)
                (ground
                  (arith, none_left, same, Option-cases (find_reservation user r.server_id table)))
                ih)
        | inr f ↦ rw f refl
      ] in
    elim (Bool-cases (eqb r.user_id user && is_some (find server_key r.server_id pool))) [
      | inl f ↦ rw f (
          Listed-insert_ordered user (r ∷ table) r (list_reservations user pool table)
            (ground (arith, f, eqb_refl r.server_id)) (ground (arith, f, apart))
            (Listed-extended user table r (list_reservations user pool table) apart ih))
      | inr f ↦ rw f (Listed-extended user table r (list_reservations user pool table) apart ih)
    ]
