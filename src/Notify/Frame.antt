-- ===== src/Notify/Frame.antt =====
-- A notification (server/notify.c) sends at most one message and changes nothing else.
use online_auction_system.Base.{ℕ, ◌≡◌, arith}
use online_auction_system.Models.{Amount, MessageType}
use online_auction_system.World.{World, Payload}
use online_auction_system.Notify.{
  push_notification, notify_outbid, notify_auction_won, notify_auction_closed,
}

-- From `w` to `w'` only the messages sent differ.
abbrev pub OnlySends : World → World → Type 0
OnlySends w w' = w' ≡ record w { sent = w'.sent }

push_notification-OnlySends :
    (k : ℕ) (t : MessageType) (p : Payload) (w : World) → OnlySends w (push_notification k t p w)
unfolding push_notification
push_notification-OnlySends k t p w = ground arith

pub notify_outbid-OnlySends :
    (k id : ℕ) (a : Amount) (w : World) → OnlySends w (notify_outbid k id a w)
unfolding notify_outbid
notify_outbid-OnlySends k id a w = push_notification-OnlySends k _ _ w

pub notify_auction_won-OnlySends :
    (k id : ℕ) (a : Amount) (w : World) → OnlySends w (notify_auction_won k id a w)
unfolding notify_auction_won
notify_auction_won-OnlySends k id a w = push_notification-OnlySends k _ _ w

pub notify_auction_closed-OnlySends :
    (k id : ℕ) (w : World) → OnlySends w (notify_auction_closed k id w)
unfolding notify_auction_closed
notify_auction_closed-OnlySends k id w = push_notification-OnlySends k _ _ w
