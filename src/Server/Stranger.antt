-- ===== src/Server/Stranger.antt =====
-- A client that does not log in (`handle_client` of server/server.c).
use online_auction_system.Base.{
  ◌≡◌, refl, sym, subst, Bool, true, false, Option, List, [], ◌∷◌, ◌∙◌, ap, All, if◌then◌else◌,
  Bool-cases, inl, inr,
}
use online_auction_system.Base.Money.{ℤ, pos, leb_ℤ}
use online_auction_system.Base.Bytes.{Bytes}
use online_auction_system.Models.{zero_user, error_msg, err_auth_fail}
use online_auction_system.World.{World, no_payload}
use online_auction_system.Notify.{send_msg}
use online_auction_system.Notify.Frame.{OnlySends}
use online_auction_system.Server.Dispatch.{
  Request, Connection, is_login, handle_message, converse, clean_up, handle_client,
}

OnlySends-trans : (w w' w'' : World) → OnlySends w w' → OnlySends w' w'' → OnlySends w w''
OnlySends-trans w w' w'' p q =
    let e : record w' { sent = w''.sent } ≡ record w { sent = w''.sent } =
      ap {A = World} {B = World} (λ v. record v { sent = w''.sent }) p in
    q ∙ e

-- A connection that is still not logged in, and a state that differs in the messages sent.
abbrev IsQuiet : World → World × Connection → Type 0
IsQuiet w r = (r.1.authenticated ≡ false) × OnlySends w r.0

choose-IsQuiet :
    (w : World) (b : Bool) (r s : World × Connection)
    → IsQuiet w r
    → IsQuiet w s
    → IsQuiet w (if b then r else s)
choose-IsQuiet w true r s p q = p
choose-IsQuiet w false r s p q = q

module _ (popen : Bytes → Option Bytes) where
  handle_message-refused :
      (req : Request) (c : Connection) (w : World)
      → c.authenticated ≡ false
      → is_login req ≡ false
      → handle_message popen req c w
        ≡ (send_msg c.client_fd error_msg err_auth_fail no_payload w, c)
  unfolding handle_message
  handle_message-refused req c w out other = rw (out, other) refl

  converse-IsQuiet :
      (reqs : List Request) (c : Connection) (w : World)
      → c.authenticated ≡ false
      → All (λ req. is_login req ≡ false) reqs
      → IsQuiet w (converse popen reqs c w)
  unfolding converse
  converse-IsQuiet [] c w out others = (out, refl)
  converse-IsQuiet (req ∷ reqs) c w out others =
      let w1 = send_msg c.client_fd error_msg err_auth_fail no_payload w in
      let later = converse-IsQuiet reqs c w1 out others.1 in
      choose-IsQuiet w c.running _ (w, c)
        (subst (λ m. IsQuiet w (converse popen reqs m.1 m.0))
          (sym (handle_message-refused req c w out others.0))
          (later.0, OnlySends-trans w w1 _ refl later.1))
        (out, refl)

-- A client that never sends a login changes nothing, whatever else it sends: only answers are sent.
pub handle_client-OnlySends :
    (popen : Bytes → Option Bytes) (client_fd : ℤ) (reqs : List Request) (w : World)
    → All (λ req. is_login req ≡ false) reqs
    → OnlySends w (handle_client popen client_fd reqs w)
unfolding handle_client clean_up
handle_client-OnlySends popen client_fd reqs w others =
    elim (Bool-cases (leb_ℤ client_fd (pos 0))) [
      | inl bad ↦ rw bad refl
      | inr good ↦
          let c : Connection = record {
            client_fd = client_fd;
            current_user = zero_user;
            authenticated = false;
            running = true;
          } in
          let quiet = converse-IsQuiet popen reqs c w refl others in rw (good, quiet.0) quiet.1
    ]
