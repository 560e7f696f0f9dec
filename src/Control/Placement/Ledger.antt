-- ===== src/Control/Placement/Ledger.antt =====
-- The ledger of a server's capacity: its free bytes and the owners' reservations on it make up its total.
use orlop.Prelude.{
  ℕ, ◌+◌, Text, Bool, true, none, some, List, eqb, eqb_iff, ◌==◌, if◌then◌else◌, ok, ◌≡◌, refl,
  find, find-update_key, update_key, ◌≤◌, Option-cases, arith, inl, inr,
}
use orlop.Control.Store.{Reservation, Server, Store, server_key}
use orlop.Control.Store.Pool.{update_server, debited, credited, release_capacity}
use orlop.Control.Placement.Pairs.{reserved}

unfoldable pub is_balanced : Text → Store → Bool
is_balanced server db = elim (find server_key server db.server_pool) [
  | none ↦ true
  | some s ↦ s.free_bytes + reserved server db.reservations == s.total_bytes
]

pub update_server-ok :
    (id : Text) (test : Server → Bool) (f : Server → Server) (db db' : Store)
    → update_server id test f db ≡ ok db'
    → (v : Server) × (find server_key id db.server_pool ≡ some v)
      × (test v ≡ true)
      × (db' ≡ record db { server_pool = update_key server_key id f db.server_pool })
unfolding update_server
update_server-ok id test f db db' done = elim (Option-cases (find server_key id db.server_pool)) [
  | inl e ↦ ground (arith, e, done)
  | inr (v, e) ↦ (v, e, ground (arith, e, done), ground (arith, e, done))
]

-- Bytes taken from a server's free space for a table that reserves as many more on it.
pub debit-balanced :
    (s id : Text) (n : ℕ) (test : Server → Bool) (db db' : Store) (table : List Reservation)
    → is_balanced s db ≡ true
    → ((v : Server) → test v ≡ true → n ≤ v.free_bytes)
    → update_server id test (debited n) db ≡ ok db'
    → reserved s table ≡ reserved s db.reservations + (if eqb id s then n else 0)
    → is_balanced s (record db' { reservations = table }) ≡ true
unfolding is_balanced
debit-balanced s id n test db db' table balanced fits done sums =
    let (v, here, passed, shape) = update_server-ok id test (debited n) db db' done in
    elim (Option-cases (find server_key s db.server_pool)) [
      | inl e ↦ ground (
        arith,
        e,
        shape,
        eqb_iff id s,
        find-update_key server_key s id (debited n) db.server_pool (λ _. refl),
      )
      | inr (w, e) ↦ ground (
        arith,
        e,
        here,
        shape,
        balanced,
        sums,
        eqb_iff id s,
        fits v passed,
        find-update_key server_key s id (debited n) db.server_pool (λ _. refl),
      )
    ]

-- Bytes given back to a server's free space for a table that reserves as many less on it.
pub credit-balanced :
    (s id : Text) (n : ℕ) (db db' : Store) (table : List Reservation)
    → is_balanced s db ≡ true
    → release_capacity id n db ≡ ok db'
    → reserved s table + (if eqb id s then n else 0) ≡ reserved s db.reservations
    → is_balanced s (record db' { reservations = table }) ≡ true
unfolding is_balanced release_capacity
credit-balanced s id n db db' table balanced done sums =
    let (v, here, passed, shape) = update_server-ok id (λ _. true) (credited n) db db' done in
    elim (Option-cases (find server_key s db.server_pool)) [
      | inl e ↦ ground (
        arith,
        e,
        shape,
        eqb_iff id s,
        find-update_key server_key s id (credited n) db.server_pool (λ _. refl),
      )
      | inr (w, e) ↦ ground (
        arith,
        e,
        shape,
        balanced,
        sums,
        eqb_iff id s,
        find-update_key server_key s id (credited n) db.server_pool (λ _. refl),
      )
    ]
