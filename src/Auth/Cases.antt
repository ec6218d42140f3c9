-- ===== src/Auth/Cases.antt =====
-- How a login (server/auth.c) ends: it is refused with an error code, or a session is opened under all
-- its guards.
use online_auction_system.Base.{
  ℕ, ◌≡◌, refl, sym, subst, Bool, Option, some, none, true, false, Option-cases, Bool-cases, inl,
  inr,
}
use online_auction_system.Base.Money.{ℤ}
use online_auction_system.Base.Bytes.{Bytes}
use online_auction_system.Models.{User, Session, ErrorCode, err_already_logged, err_internal}
use online_auction_system.World.{World}
use online_auction_system.World.FileIo.{
  find_user_by_username, find_session_slot, find_free_slot, write_session,
}
use online_auction_system.Auth.{
  LoginPayload, handle_login, open_session, finish_login, refuse_login, is_barred, password_matches,
}

-- The session of a login.
abbrev pub new_session : ℤ → User → World → Session
new_session client_fd u w = record {
  user_id = u.user_id;
  client_fd = client_fd;
  login_time = w.now;
  is_active = true;
}

-- The guards that a login has passed.
pub record Welcomes (popen : Bytes → Option Bytes) (req : LoginPayload) (w : World) (u : User)
    (slot : ℕ) : Type 0 where
  pub found : find_user_by_username req.username w ≡ some u
  pub allowed : is_barred u.status ≡ false
  pub right : password_matches popen req.password u ≡ true
  pub absent : find_session_slot u.user_id w ≡ none
  pub free : find_free_slot w ≡ some slot

-- The end of a login, by what `open_session` gave.
abbrev after_open : ℤ → User → User → World × Option ErrorCode → World × User × Bool
after_open fd out_user u r = elim r.1 [
  | some code ↦ refuse_login fd code out_user r.0
  | none ↦ finish_login fd u r.0
]

module _ {ℓ} (P : World × User × Bool → Type ℓ) (popen : Bytes → Option Bytes) (fd : ℤ)
    (req : LoginPayload) (out_user : User) (w : World)
    (refused : (code : ErrorCode) → P (refuse_login fd code out_user w)) where
  after_open-cases :
      (u : User)
      → ((slot : ℕ)
          → find_session_slot u.user_id w ≡ none
          → find_free_slot w ≡ some slot
          → P (finish_login fd u (write_session slot (new_session fd u w) w).0))
      → P (after_open fd out_user u (open_session fd u w))
  unfolding open_session
  after_open-cases u welcome = elim (Option-cases (find_session_slot u.user_id w)) [
    | inr (existing, there) ↦
        let e : open_session fd u w ≡ (w, some err_already_logged) =
          rw (there, open_session) refl in
        subst (λ r. P (after_open fd out_user u r)) (sym e) (refused err_already_logged)
    | inl absent ↦ elim (Option-cases (find_free_slot w)) [
      | inl full ↦
          let e : open_session fd u w ≡ (w, some err_internal) =
            rw (absent, full, open_session) refl in
          subst (λ r. P (after_open fd out_user u r)) (sym e) (refused err_internal)
      | inr (slot, free) ↦
          let w1 = (write_session slot (new_session fd u w) w).0 in
          let e : open_session fd u w ≡ (w1, none) = rw (absent, free, open_session) refl in
          subst (λ r. P (after_open fd out_user u r)) (sym e) (welcome slot absent free)
    ]
  ]

  pub handle_login-cases :
      ((u : User) (slot : ℕ)
        → Welcomes popen req w u slot
        → P (finish_login fd u (write_session slot (new_session fd u w) w).0))
      → P (handle_login popen fd req out_user w)
  unfolding handle_login
  handle_login-cases welcome = elim (Option-cases (find_user_by_username req.username w)) [
    | inl unknown ↦ rw (unknown, handle_login) (refused _)
    | inr (u, found) ↦ elim (Bool-cases (is_barred u.status)) [
      | inl barred ↦ rw (found, handle_login, barred) (refused _)
      | inr allowed ↦ elim (Bool-cases (password_matches popen req.password u)) [
        | inr wrong ↦ rw (found, handle_login, allowed, wrong) (refused _)
        | inl right ↦
            rw (found, handle_login, allowed, right)
              (after_open-cases u λ slot absent free. welcome u slot (record {
                found = found;
                allowed = allowed;
                right = right;
                absent = absent;
                free = free;
              }))
      ]
    ]
  ]
