-- ===== src/Auth/Password.antt =====
-- `handle_change_password` of server/auth.c writes back the connection's copy of the user.
use online_auction_system.Base.{◌≡◌, refl, some, true, Option, arith, subst, sym, ◌∙◌}
use online_auction_system.Base.Money.{ℤ}
use online_auction_system.Base.Bytes.{Bytes, strncpy}
use online_auction_system.Models.{User, max_password}
use online_auction_system.World.{World}
use online_auction_system.World.FileIo.{read_user}
use online_auction_system.Wallet.Effect.{UsersReady, write_user-with_user, read_user-with_user}
use online_auction_system.Hash.{sha256_hex}
use online_auction_system.Auth.{ChangePassPayload, password_matches, handle_change_password}

-- Two records agree on the wallet, the role and the status.
pub record SameAccount (u v : User) : Type 0 where
  pub balance : u.wallet_balance ≡ v.wallet_balance
  pub hold : u.wallet_hold ≡ v.wallet_hold
  pub role : u.role ≡ v.role
  pub status : u.status ≡ v.status

-- After an accepted change of password, users.dat holds the wallet, the role and the status that the
-- connection's copy `u` had, whatever the file held for the user before.
pub change_password_restores_copy :
    (popen : Bytes → Option Bytes) (fd : ℤ) (req : ChangePassPayload) (u : User) {v : User}
    {w : World}
    → UsersReady w
    → read_user u.user_id w ≡ some v
    → u.user_id ≡ v.user_id
    → password_matches popen req.old_password u ≡ true
    → (v' : User) × (read_user u.user_id (handle_change_password popen fd req u w).0 ≡ some v')
      × SameAccount v' u
unfolding handle_change_password
change_password_restores_copy popen fd req u {v} {w} ready found same ok =
    let u' : User = record u {
      password = strncpy u.password (sha256_hex popen req.new_password).text max_password;
    } in
    let wrote = write_user-with_user ready u.user_id found u' same in
    let there = read_user-with_user ready u.user_id found u' u.user_id in
    (
      u',
      rw (ok, handle_change_password)
          (subst (λ r. read_user u.user_id r.0 ≡ some u') (sym wrote) (there ∙ ground arith)),
      record { balance = refl; hold = refl; role = refl; status = refl },
    )
