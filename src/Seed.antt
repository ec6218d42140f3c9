-- ===== src/Seed.antt =====
-- seed_admin.c: the program that is run once, before the server, to create the first administrator.
use online_auction_system.Base.{
  ℕ, zero, suc, ◌-◌, ◌≡◌, refl, ap, true, false, Option, none, some, List, [], ◌∷◌, length, leb,
  if◌then◌else◌, arith, Bool-cases, inl, inr,
}
use online_auction_system.Base.Money.{ℤ, pos}
use online_auction_system.Base.Strings.{strncmp_eq-strncpy}
use online_auction_system.Base.Bytes.{Bytes, strncpy}
use online_auction_system.Models.{
  User, role_admin, account_active, zero_user, max_username, max_name, max_password,
}
use online_auction_system.Store.{records, read_at}
use online_auction_system.World.{World}
use online_auction_system.World.FileIo.{
  find_user_by_username, find_username, find_session_slot, find_free_slot, find_session_from,
  find_free_from,
}
use online_auction_system.Hash.{Digest, bytes, command, fgets, strip_newline, sha256_hex}
use online_auction_system.Admin.{store_digest, count_admins}
use online_auction_system.Admin.LastAdmin.{HasAdmin}
use online_auction_system.Auth.{
  LoginPayload, open_session, finish_login, handle_login, password_matches,
}
use online_auction_system.Ledger.{held}
use online_auction_system.System.Keeps.{InOrder}

-- The program's own `sha256_hex`: without a shell it leaves `out` as it is, which is all NULs.
unfoldable pub seed_sha256_hex : (Bytes → Option Bytes) → Bytes → Digest
unfolding fgets strip_newline
seed_sha256_hex popen input = elim (popen (command input)) [
  | none ↦ record { text = []; fills_65 = false }
  | some printed ↦
      let line = fgets 64 printed in
      record { text = strip_newline line; fills_65 = leb 64 (length line) }
]

abbrev pub admin_password : Bytes
admin_password = bytes "admin123"

-- The record that `main` fills in, before the password.
abbrev pub admin : World → User
admin w = record zero_user {
  user_id = 1;
  role = role_admin;
  status = account_active;
  wallet_balance = pos 0;
  wallet_hold = pos 0;
  created_at = w.now;
  is_deleted = false;
  username = strncpy zero_user.username (bytes "admin") (max_username - 1);
  full_name = strncpy zero_user.full_name (bytes "System Admin") (max_name - 1);
}

module _ (popen : Bytes → Option Bytes) where
  abbrev pub seeded_admin : World → User
  seeded_admin w = store_digest (seed_sha256_hex popen admin_password) (admin w)

  -- `main`: the state and the exit code.
  unfoldable pub seed_admin : World → World × ℕ
  seed_admin w =
      if w.users.writable
      then (record w { users = record w.users { contents = some (seeded_admin w ∷ []) } }, 0)
      else (w, 1)

-- The data directory holds no auction and no dispute, and the three files can be written.
pub record IsBlank (w : World) : Type 0 where
  pub users_writable : w.users.writable ≡ true
  pub auctions_writable : w.auctions.writable ≡ true
  pub no_auctions : records w.auctions ≡ []
  pub disputes_writable : w.disputes.writable ≡ true
  pub no_disputes : records w.disputes ≡ []

-- The password that is stored is the one that a login as the administrator compares with.
seeded_admin-password_matches :
    (popen : Bytes → Option Bytes) (w : World) {printed : Bytes}
    → popen (command admin_password) ≡ some printed
    → password_matches popen admin_password (seeded_admin popen w) ≡ true
unfolding seed_sha256_hex sha256_hex
seeded_admin-password_matches popen w {printed} e =
    rw (e, seed_sha256_hex, sha256_hex)
      (strncmp_eq-strncpy max_password (strip_newline (fgets 64 printed)))

find_free_slot-first : (w : World) → records w.sessions ≡ [] → find_free_slot w ≡ some 0
unfolding find_free_slot find_free_from
find_free_slot-first w blank = elim (Bool-cases w.sessions.writable) [
  | inl can ↦ rw can (ap (find_free_from 0) blank)
  | inr cannot ↦ rw cannot refl
]

-- With no session on file, a user may log in.
open_session-opens :
    (fd : ℤ) (u : User) (w : World) → records w.sessions ≡ [] → (open_session fd u w).1 ≡ none
unfolding open_session find_session_slot find_session_from
open_session-opens fd u w blank =
    let no_session : find_session_slot u.user_id w ≡ none =
      ap (find_session_from u.user_id 0) blank in
    rw (no_session, find_free_slot-first w blank, open_session) refl

module _ (popen : Bytes → Option Bytes) where
  seed_admin-holds :
      (w : World) (xs : List User) (i : ℕ) (u : User)
      → read_at (record w.users { contents = some (seeded_admin popen w ∷ []) }) i ≡ some u
      → u.wallet_hold ≡ held (suc i) []
  unfolding read_at held
  seed_admin-holds w xs zero u e = let q : seeded_admin popen w ≡ u = cc in rw⁻¹ q refl
  seed_admin-holds w xs (suc i) u e = absurd cc

  -- The state that the seed leaves.
  abbrev seeded : World → World
  seeded w = record w { users = record w.users { contents = some (seeded_admin popen w ∷ []) } }

  seed_admin-seeded : (w : World) → IsBlank w → seed_admin popen w ≡ (seeded w, 0)
  unfolding seed_admin
  seed_admin-seeded w b = elim (Bool-cases w.users.writable) [
    | inl can ↦ rw can refl
    | inr cannot ↦ absurd (ground (arith, b.users_writable))
  ]

  -- On a blank data directory the seed exits with 0, and leaves files in order, with one active
  -- administrator.
  pub seed_admin-InOrder :
      (w : World)
      → IsBlank w
      → InOrder (seed_admin popen w).0
        × HasAdmin (seed_admin popen w).0
        × ((seed_admin popen w).1 ≡ 0)
  unfolding count_admins
  seed_admin-InOrder w b = rw (seed_admin-seeded w b) (
    record {
      books = record {
        users_ready = record { keyed = ((refl, tt), omega arith); writable = b.users_writable };
        auctions_ready = record {
          keyed = rw b.no_auctions (tt, omega arith);
          writable = b.auctions_writable;
        };
        sound = ((omega arith, omega arith), tt);
        sane = rw b.no_auctions tt;
        holds = rw b.no_auctions (seed_admin-holds w []);
      };
      disputes_keyed = rw b.no_disputes (tt, omega arith);
      disputes_writable = b.disputes_writable;
      disputes_shut = rw b.no_disputes tt;
    },
    omega arith,
    refl,
  )

  -- After the seed on a blank data directory without sessions, a login as admin with the password
  -- admin123 succeeds, as user 1 and an administrator, if the shell can be started.
  pub seed_admin-handle_login :
      (w : World) (fd : ℤ) (out_user : User) {printed : Bytes}
      → IsBlank w
      → records w.sessions ≡ []
      → popen (command admin_password) ≡ some printed
      → let req : LoginPayload = record { username = bytes "admin"; password = admin_password } in
        let r = handle_login popen fd req out_user (seed_admin popen w).0 in
        (r.2 ≡ true) × (r.1.user_id ≡ 1) × (r.1.role ≡ role_admin)
  unfolding handle_login find_user_by_username find_username finish_login
  seed_admin-handle_login w fd out_user b blank e =
      let right = seeded_admin-password_matches popen w e in
      let opens = open_session-opens fd (seeded_admin popen w) (seeded w) blank in
      rw (seed_admin-seeded w b) (rw (right, opens, handle_login) (refl, refl, refl))
