-- ===== src/Control/Placement/Pairs.antt =====
-- The reservations as a table keyed by owner and server, and the rows that `list_reservations` reads of it.
use orlop.Prelude.{
  ℕ, ◌+◌, Text, Bool, true, false, none, some, List, [], ◌∷◌, ◌&&◌, ◌||◌, not, eqb, eqb_iff,
  is_some, if◌then◌else◌, ◌≡◌, refl, Option-cases, arith,
}
use orlop.Control.Store.{Reservation}
use orlop.Control.Store.Pool.{find_reservation, resize_reservation, delete_reservation}

-- The primary key of the table.
abbrev pub has_unique_pairs : List Reservation → Bool
has_unique_pairs [] = true
has_unique_pairs (r ∷ rs) =
    not (is_some (find_reservation r.user_id r.server_id rs)) && has_unique_pairs rs

-- The bytes that all owners have reserved on a server.
unfoldable pub reserved : Text → List Reservation → ℕ
reserved server [] = 0
reserved server (r ∷ rs) = (if eqb r.server_id server then r.size_bytes else 0) + reserved server rs

unfoldable pub is_listed : Text → List Reservation → Bool
is_listed server [] = false
is_listed server (r ∷ rs) = eqb r.server_id server || is_listed server rs

-- The rows are the user's, as the table has them, each server once.
abbrev pub Listed : Text → List Reservation → List Reservation → Type 0
Listed user table [] = Unit
Listed user table (r ∷ rs) =
    (find_reservation user r.server_id table ≡ some r)
    × (is_listed r.server_id rs ≡ false)
    × Listed user table rs

module _ (user server : Text) where
  resize_reservation-none :
      (new : ℕ) (rs : List Reservation)
      → find_reservation user server rs ≡ none
      → resize_reservation user server new rs ≡ rs
  unfolding find_reservation resize_reservation
  resize_reservation-none new [] e = refl
  resize_reservation-none new (r ∷ rs) e = ground (arith, e, resize_reservation-none new rs)

  delete_reservation-none :
      (rs : List Reservation)
      → find_reservation user server rs ≡ none
      → delete_reservation user server rs ≡ rs
  unfolding find_reservation delete_reservation
  delete_reservation-none [] e = refl
  delete_reservation-none (r ∷ rs) e = ground (arith, e, delete_reservation-none rs)

  find-resize_reservation :
      (u s : Text) (new : ℕ) (rs : List Reservation)
      → is_some (find_reservation u s (resize_reservation user server new rs))
        ≡ is_some (find_reservation u s rs)
  unfolding find_reservation resize_reservation
  find-resize_reservation u s new [] = refl
  find-resize_reservation u s new (r ∷ rs) = ground (arith, find-resize_reservation u s new rs)

  find-delete_reservation :
      (u s : Text) (rs : List Reservation)
      → find_reservation u s rs ≡ none
      → find_reservation u s (delete_reservation user server rs) ≡ none
  unfolding find_reservation delete_reservation
  find-delete_reservation u s [] e = refl
  find-delete_reservation u s (r ∷ rs) e = ground (arith, e, find-delete_reservation u s rs)

  pub find-resize_other :
      (s : Text) (new : ℕ) (rs : List Reservation)
      → eqb server s ≡ false
      → find_reservation user s (resize_reservation user server new rs) ≡ find_reservation user s rs
  unfolding find_reservation resize_reservation
  find-resize_other s new [] e = refl
  find-resize_other s new (r ∷ rs) e = ground (
    arith,
    e,
    find-resize_other s new rs,
    eqb_iff r.server_id server,
    eqb_iff r.server_id s,
    eqb_iff server s,
  )

  pub find-delete_other :
      (s : Text) (rs : List Reservation)
      → eqb server s ≡ false
      → find_reservation user s (delete_reservation user server rs) ≡ find_reservation user s rs
  unfolding find_reservation delete_reservation
  find-delete_other s [] e = refl
  find-delete_other s (r ∷ rs) e = ground (
    arith,
    e,
    find-delete_other s rs,
    eqb_iff r.server_id server,
    eqb_iff r.server_id s,
    eqb_iff server s,
  )

  pub unique-resize_reservation :
      (new : ℕ) (rs : List Reservation)
      → has_unique_pairs rs ≡ true
      → has_unique_pairs (resize_reservation user server new rs) ≡ true
  unfolding resize_reservation
  unique-resize_reservation new [] e = refl
  unique-resize_reservation new (r ∷ rs) e = ground (
    arith,
    e,
    unique-resize_reservation new rs,
    find-resize_reservation r.user_id r.server_id new rs,
  )

  pub unique-delete_reservation :
      (rs : List Reservation)
      → has_unique_pairs rs ≡ true
      → has_unique_pairs (delete_reservation user server rs) ≡ true
  unfolding delete_reservation
  unique-delete_reservation [] e = refl
  unique-delete_reservation (r ∷ rs) e = ground (
    arith,
    e,
    unique-delete_reservation rs,
    find-delete_reservation r.user_id r.server_id rs,
    Option-cases (find_reservation r.user_id r.server_id rs),
  )

  pub reserved-resize_reservation :
      (new : ℕ) (s : Text) (r : Reservation) (rs : List Reservation)
      → has_unique_pairs rs ≡ true
      → find_reservation user server rs ≡ some r
      → reserved s (resize_reservation user server new rs)
          + (if eqb server s then r.size_bytes else 0)
        ≡ reserved s rs + (if eqb server s then new else 0)
  unfolding find_reservation resize_reservation reserved
  reserved-resize_reservation new s r [] e f = ground (arith, f)
  reserved-resize_reservation new s r (q ∷ rs) e f = ground (
    arith,
    e,
    f,
    reserved-resize_reservation new s r rs,
    resize_reservation-none new rs,
    eqb_iff q.server_id server,
    eqb_iff q.user_id user,
    Option-cases (find_reservation q.user_id q.server_id rs),
  )

  pub reserved-delete_reservation :
      (s : Text) (r : Reservation) (rs : List Reservation)
      → has_unique_pairs rs ≡ true
      → find_reservation user server rs ≡ some r
      → reserved s (delete_reservation user server rs) + (if eqb server s then r.size_bytes else 0)
        ≡ reserved s rs
  unfolding find_reservation delete_reservation reserved
  reserved-delete_reservation s r [] e f = ground (arith, f)
  reserved-delete_reservation s r (q ∷ rs) e f = ground (
    arith,
    e,
    f,
    reserved-delete_reservation s r rs,
    delete_reservation-none rs,
    eqb_iff q.server_id server,
    eqb_iff q.user_id user,
    Option-cases (find_reservation q.user_id q.server_id rs),
  )
