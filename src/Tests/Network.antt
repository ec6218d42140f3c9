-- ===== src/Tests/Network.antt =====
-- Messages over a socket with a header of twelve bytes.
use online_auction_system.Base.{
  ℕ, ◌≡◌, refl, true, some, arith, List, [], ◌∷◌, ◌++◌, ◌+◌, ◌*◌, ◌/◌, ◌%◌, ◌<◌, ◌^◌,
}
use online_auction_system.Base.Bytes.{Bytes}
use online_auction_system.Wire.{MessageHeader, HeaderLayout, Socket, send_loop, send_msg, recv_msg}
use online_auction_system.Client.Socket.{send_request, send_request-outgoing}
use online_auction_system.Wire.Send.{written, send_msg-written}
use online_auction_system.Wire.Recv.{recv_msg-read, recv_msg-send_msg}

-- A word of 32 bits, the lowest byte first.
abbrev word_bytes : ℕ → Bytes
word_bytes n = n % 256 ∷ (n / 256 % 256 ∷ (n / 65536 % 256 ∷ (n / 16777216 % 256 ∷ [])))

abbrev word_of : ℕ → ℕ → ℕ → ℕ → ℕ
word_of a b c d = a + 256 * b + 65536 * c + 16777216 * d

word_of-word_bytes :
    (n : ℕ)
    → n < 2 ^ 32
    → word_of (n % 256) (n / 256 % 256) (n / 65536 % 256) (n / 16777216 % 256) ≡ n
word_of-word_bytes n h = ground arith

abbrev header : Bytes → MessageHeader
header (a ∷ (b ∷ (c ∷ (d ∷ (e ∷ (f ∷ (g ∷ (h ∷ (i ∷ (j ∷ (k ∷ (l ∷ [])))))))))))) = record {
  type = word_of a b c d;
  length = word_of e f g h;
  status = word_of i j k l;
}
header _ = record { type = 0; length = 0; status = 0 }

header_words :
    {t l s t' l' s' : ℕ}
    → t ≡ t'
    → l ≡ l'
    → s ≡ s'
    → Path MessageHeader
        (record { type = t; length = l; status = s })
        (record { type = t'; length = l'; status = s' })
header_words p q r = rw (p, q, r) refl

abbrev layout_12 : HeaderLayout
layout_12 = record {
  size = 12;
  to_bytes = λ h. word_bytes h.type ++ (word_bytes h.length ++ word_bytes h.status);
  from_bytes = header;
  length-to_bytes = λ h. refl;
  from_bytes-to_bytes = λ h (t, l, s).
      header_words (word_of-word_bytes h.type t) (word_of-word_bytes h.length l)
        (word_of-word_bytes h.status s);
}

-- A peer that takes the payload in two pieces.
abbrev slow : Bytes → Socket
slow incoming = record { incoming = incoming; outgoing = []; grants = 12 ∷ (1 ∷ (1 ∷ [])) }

-- The header of a message of type 5 with two bytes.
abbrev head_5 : Bytes
head_5 = 5 ∷ (0 ∷ (0 ∷ (0 ∷ (2 ∷ (0 ∷ (0 ∷ (0 ∷ (0 ∷ (0 ∷ (0 ∷ (0 ∷ [])))))))))))

abbrev word : Bytes
word = 104 ∷ (105 ∷ [])

send_msg-written_example :
    (left : List ℕ) × (send_msg layout_12 5 0 word (slow [])
      ≡ (written (slow []) (head_5 ++ word) left, true))
send_msg-written_example =
    send_msg-written layout_12 5 0 word (slow []) (omega arith, (omega arith, (omega arith, tt)))

recv_msg-read_example :
    (left : List ℕ) × (recv_msg layout_12 1 (slow (head_5 ++ word)) ≡ (
      record (slow (head_5 ++ word)) { incoming = 105 ∷ []; grants = left },
      some (header head_5, 104 ∷ []),
    ))
recv_msg-read_example =
    recv_msg-read layout_12 (header head_5) word 1 (slow (head_5 ++ word))
      (omega arith, omega arith, omega arith) refl (omega arith) (omega arith, (omega arith, tt))

recv_msg-send_msg_example :
    ((send_msg layout_12 5 0 word (slow [])).1 ≡ true)
    × (left : List ℕ) × (recv_msg layout_12 8 (slow (head_5 ++ (104 ∷ (105 ∷ (9 ∷ [])))))
        ≡ (record (slow []) { incoming = 9 ∷ []; grants = left }, some (header head_5, word)))
unfolding send_msg send_loop
recv_msg-send_msg_example =
    recv_msg-send_msg layout_12 5 0 word (9 ∷ []) 8 (slow [])
      (slow (head_5 ++ (104 ∷ (105 ∷ (9 ∷ []))))) (omega arith) (omega arith) (omega arith) refl
      (omega arith, (omega arith, (omega arith, tt))) refl
      (omega arith, (omega arith, (omega arith, tt))) (omega arith)

-- A peer that takes the header and the payload at once.
abbrev quick : Socket
quick = record { incoming = []; outgoing = []; grants = 12 ∷ (2 ∷ []) }

send_request-outgoing_example : (send_request layout_12 5 word quick).0.outgoing ≡ head_5 ++ word
unfolding send_request
send_request-outgoing_example = send_request-outgoing layout_12 5 word quick refl
