-- ===== src/Server/Leak.antt =====
-- A login that is refused on a connection that is already logged in (server/server.c): `authenticated`
-- is then 0, so the end of the connection does not close the session.
use online_auction_system.Base.{
  ℕ, ◌≡◌, ◌∙◌, refl, ap, sym, subst, Bool, true, false, Option, some, not, ◌&&◌,
}
use online_auction_system.Base.Money.{ℤ}
use online_auction_system.Base.Bytes.{Bytes}
use online_auction_system.Models.{User}
use online_auction_system.World.{World}
use online_auction_system.World.FileIo.{find_user_by_username, find_session_slot}
use online_auction_system.Auth.{LoginPayload, handle_login, finish_login}
use online_auction_system.Auth.Cases.{Welcomes, handle_login-cases}
use online_auction_system.Server.Dispatch.{Request, Connection, handle_message, serve, clean_up}

-- A login that is refused leaves the files of users and sessions as they are.
record Refused (w : World) (r : World × User × Bool) : Type 0 where
  pub same_users : r.0.users ≡ w.users
  pub same_sessions : r.0.sessions ≡ w.sessions

and_false : (b : Bool) → (b && false) ≡ false
and_false true = refl
and_false false = refl

no_welcome :
    {popen : Bytes → Option Bytes} {req : LoginPayload} {w : World} {u v : User} {slot s : ℕ}
    → find_user_by_username req.username w ≡ some u
    → find_session_slot u.user_id w ≡ some slot
    → Welcomes popen req w v s
    → ⊥
no_welcome {u = u} {v = v} found there h =
    let same : v ≡ u = cc (found, h.found) in let absent = h.absent in cc (same, there, absent)

module _ (popen : Bytes → Option Bytes) where
  handle_login-Refused :
      (fd : ℤ) (req : LoginPayload) (out_user : User) (w : World)
      → (handle_login popen fd req out_user w).2 ≡ false
      → Refused w (handle_login popen fd req out_user w)
  unfolding finish_login
  handle_login-Refused fd req out_user w =
      handle_login-cases (λ r. r.2 ≡ false → Refused w r) popen fd req out_user w
        (λ code e. record { same_users = refl; same_sessions = refl }) (λ u slot h e. absurd cc)

  -- While a session of a user is on file, a login as this user is refused.
  second_login-refused :
      (fd : ℤ) (req : LoginPayload) (out_user : User) (w : World) {u : User} {slot : ℕ}
      → find_user_by_username req.username w ≡ some u
      → find_session_slot u.user_id w ≡ some slot
      → (handle_login popen fd req out_user w).2 ≡ false
  second_login-refused fd req out_user w found there =
      handle_login-cases (λ r. r.2 ≡ false) popen fd req out_user w (λ code. refl)
        (λ v s h. absurd (no_welcome found there h))

  -- A login is let through on every connection.
  login_served :
      (req : LoginPayload) (c : Connection) (w : World)
      → handle_message popen (Request.login req) c w ≡ serve popen (Request.login req) c w
  unfolding handle_message
  login_served req c w = rw (and_false (not c.authenticated)) refl

  clean_up_idle : (c : Connection) (w : World) → c.authenticated ≡ false → clean_up popen c w ≡ w
  unfolding clean_up
  clean_up_idle c w out = rw (out, clean_up) refl

  -- On a connection whose user has a session on file, a login that is refused and then the end of the
  -- connection leave the session on file, and a later login as this user, from anywhere, is refused.
  pub failed_login_leaves_session :
      (req : LoginPayload) (c : Connection) (w : World) {slot : ℕ}
      → find_session_slot c.current_user.user_id w ≡ some slot
      → (handle_login popen c.client_fd req c.current_user w).2 ≡ false
      → (fd : ℤ) (again : LoginPayload) (out_user : User) {u : User}
      → find_user_by_username again.username w ≡ some u
      → u.user_id ≡ c.current_user.user_id
      → let r = handle_message popen (Request.login req) c w in
        let w' = clean_up popen r.1 r.0 in
        (find_session_slot c.current_user.user_id w' ≡ some slot)
        × ((handle_login popen fd again out_user w').2 ≡ false)
  unfolding serve find_session_slot find_user_by_username
  failed_login_leaves_session req c w {slot = kept_slot} there denied fd again out_user {u = u}
        found id =
      let left = handle_login-Refused c.client_fd req c.current_user w denied in
      let l = handle_login popen c.client_fd req c.current_user w in
      let still : find_session_slot c.current_user.user_id l.0 ≡ some kept_slot =
        rw left.same_sessions there in
      let found1 : find_user_by_username again.username l.0 ≡ some u = rw left.same_users found in
      let still1 : find_session_slot u.user_id l.0 ≡ some kept_slot = rw id still in
      let r = handle_message popen (Request.login req) c w in
      let same : clean_up popen r.1 r.0 ≡ l.0 =
        ap (λ q. clean_up popen q.1 q.0) (login_served req c w)
        ∙ clean_up_idle (record c { current_user = l.1; authenticated = l.2 }) l.0 denied in
      subst
        (λ v.
          (find_session_slot c.current_user.user_id v ≡ some kept_slot)
          × ((handle_login popen fd again out_user v).2 ≡ false))
        (sym same)
        (still, second_login-refused fd again out_user l.0 {u = u} {slot = kept_slot} found1 still1)
