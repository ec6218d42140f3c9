-- ===== src/Client/Agree.antt =====
-- A login seen from both ends: `do_login` of client/client.c against `handle_login` of
-- server/auth.c.
use online_auction_system.Base.{◌≡◌, Bool, true, false, ◌∷◌, ◌⊎◌}
use online_auction_system.Base.Money.{ℤ}
use online_auction_system.Base.Bytes.{Bytes}
use online_auction_system.Models.{User, ErrorCode, err_ok, login_resp}
use online_auction_system.World.{World, Message, Payload, user_payload}
use online_auction_system.Client.{Reply}
use online_auction_system.Client.Requests.{is_ok}

-- The message as it arrives.
abbrev pub reply_of : Message → Reply
reply_of m = record { type = m.type; status = m.status; payload = m.payload }

abbrev answer : ℤ → ErrorCode → Payload → Message
answer fd status payload = record { fd = fd; type = login_resp; status = status; payload = payload }

-- `m` is the one message that was sent, and says how the login went.
abbrev IsAnswer : World → World × User × Bool → Message → Type 0
IsAnswer w r m =
    (r.0.sent ≡ m ∷ w.sent)
    × (((r.2 ≡ true) × (m.status ≡ err_ok) × (m.payload ≡ user_payload r.1))
        ⊎ ((r.2 ≡ false) × (is_ok m.status ≡ false)))
