-- ===== src/Notify.antt =====
-- server/notify.c: the registry of connected users, and the notifications pushed through it.
-- `send_msg` of server/server.c and the two `write` calls of `push_notification` hand one message to
-- a socket; the handlers do not look at whether the socket took it.
pub mod Frame
pub mod Registry
use online_auction_system.Base.{
  ℕ, Bool, true, false, List, [], ◌∷◌, ◌&&◌, ◌==◌, if◌then◌else◌, replicate,
}
use online_auction_system.Base.Money.{ℤ, pos, negsuc, ltb_ℤ}
use online_auction_system.Models.{
  Amount, MessageType, notify_outbid_msg, notify_auction_won_msg, notify_auction_closed_msg,
  ErrorCode, err_ok,
}
use online_auction_system.World.{
  World, Message, Payload, outbid_payload, won_payload, closed_payload, RegistryEntry,
}

abbrev pub send_msg : ℤ → MessageType → ErrorCode → Payload → World → World
send_msg fd type status payload w = record w {
  sent = record { fd = fd; type = type; status = status; payload = payload } ∷ w.sent;
}

abbrev pub max_registry : ℕ
max_registry = 128

-- The static array before any login.
abbrev pub empty_registry : List RegistryEntry
empty_registry = replicate max_registry (record { user_id = 0; client_fd = pos 0; active = false })

unfoldable pub register : ℕ → ℤ → List RegistryEntry → List RegistryEntry
register user_id client_fd [] = []
register user_id client_fd (e ∷ es) =
    if e.active
    then e ∷ register user_id client_fd es
    else record { user_id = user_id; client_fd = client_fd; active = true } ∷ es

unfoldable pub notify_register : ℕ → ℤ → World → World
unfolding register
notify_register user_id client_fd w = record w { registry = register user_id client_fd w.registry }

unfoldable pub unregister : ℕ → List RegistryEntry → List RegistryEntry
unregister user_id [] = []
unregister user_id (e ∷ es) =
    if e.active && e.user_id == user_id
    then record e { active = false; client_fd = negsuc 0 } ∷ es
    else e ∷ unregister user_id es

unfoldable pub notify_unregister : ℕ → World → World
unfolding unregister
notify_unregister user_id w = record w { registry = unregister user_id w.registry }

-- -1 if the user is not connected.
unfoldable pub lookup_fd : ℕ → List RegistryEntry → ℤ
lookup_fd user_id [] = negsuc 0
lookup_fd user_id (e ∷ es) =
    if e.active && e.user_id == user_id then e.client_fd else lookup_fd user_id es

unfoldable pub push_notification : ℕ → MessageType → Payload → World → World
unfolding lookup_fd
push_notification user_id type payload w =
    let fd = lookup_fd user_id w.registry in
    if ltb_ℤ fd (pos 0) then w else send_msg fd type err_ok payload w

unfoldable pub notify_outbid : ℕ → ℕ → Amount → World → World
notify_outbid user_id auction_id new_highest_bid =
    push_notification user_id notify_outbid_msg (outbid_payload auction_id new_highest_bid)

unfoldable pub notify_auction_won : ℕ → ℕ → Amount → World → World
notify_auction_won user_id auction_id winning_amount =
    push_notification user_id notify_auction_won_msg (won_payload auction_id winning_amount)

unfoldable pub notify_auction_closed : ℕ → ℕ → World → World
notify_auction_closed user_id auction_id =
    push_notification user_id notify_auction_closed_msg (closed_payload auction_id)
