-- ===== src/Wire.antt =====
-- The messages on a socket: `send_msg` and `recv_msg` of server/server.c. A `write` or a `read` moves
-- as many bytes as the kernel lets it: the socket carries what the kernel will grant to each of the
-- next calls, and a call that is granted nothing fails. How a header lies in memory is the
-- compiler's choice, so it is a parameter with the two laws that the program relies on.
pub mod Send
pub mod Recv
use online_auction_system.Base.{
  ℕ, zero, suc, ◌-◌, ◌<◌, ◌^◌, ◌≡◌, min, Bool, true, false, Option, none, some, not, List, [], ◌∷◌,
  ◌++◌, length, take, drop, ltb, ◌==◌, if◌then◌else◌,
}
use online_auction_system.Base.Bytes.{Bytes}

-- `MessageHeader`: three 4-byte numbers, where `FitsWords` holds of them.
pub record MessageHeader : Type 0 where
  pub type : ℕ
  pub length : ℕ
  pub status : ℕ

-- Each field of a header has 32 bits.
abbrev pub FitsWords : MessageHeader → Type 0
FitsWords h = (h.type < 2 ^ 32) × (h.length < 2 ^ 32) × (h.status < 2 ^ 32)

-- `sizeof(MessageHeader)`, the bytes of a header, and the header that some bytes are.
pub record HeaderLayout : Type 0 where
  pub size : ℕ
  pub to_bytes : MessageHeader → Bytes
  pub from_bytes : Bytes → MessageHeader
  pub length-to_bytes : (h : MessageHeader) → length (to_bytes h) ≡ size
  pub from_bytes-to_bytes : (h : MessageHeader) → FitsWords h → from_bytes (to_bytes h) ≡ h

pub record Socket : Type 0 where
  pub incoming : Bytes
  pub outgoing : Bytes
  pub grants : List ℕ

-- `write(fd, bytes, n)` for the `n` bytes: how many it took, 0 if it failed.
abbrev pub write : Bytes → Socket → Socket × ℕ
write bytes s = elim s.grants [
  | [] ↦ (s, 0)
  | k ∷ grants ↦
      (record s { outgoing = s.outgoing ++ take k bytes; grants = grants }, min k (length bytes))
]

-- `read(fd, ptr, n)`: the bytes that it gave; none at the end of the stream or on an error.
abbrev pub read : ℕ → Socket → Socket × Bytes
read n s = elim s.grants [
  | [] ↦ (s, [])
  | k ∷ grants ↦
      let chunk = take (min k n) s.incoming in
      (record s { incoming = drop (length chunk) s.incoming; grants = grants }, chunk)
]

-- `while (sent < length)`, with the grants and what is left to send.
unfoldable pub send_loop : List ℕ → Bytes → Socket → Socket × Bool
send_loop grants [] s = (record s { grants = grants }, true)
send_loop [] (b ∷ bytes) s = (record s { grants = [] }, false)
send_loop (k ∷ grants) (b ∷ bytes) s =
    let r = write (b ∷ bytes) (record s { grants = k ∷ grants }) in
    let rest = send_loop grants (drop r.1 (b ∷ bytes)) r.0 in
    if r.1 == 0 then (r.0, false) else rest

-- `while (got < to_read)`, with the grants, how much is left to read, and what was got.
unfoldable pub recv_loop : List ℕ → ℕ → Bytes → Socket → Socket × Option Bytes
recv_loop grants zero got s = (record s { grants = grants }, some got)
recv_loop [] (suc n) got s = (record s { grants = [] }, none)
recv_loop (k ∷ grants) (suc n) got s =
    let r = read (suc n) (record s { grants = k ∷ grants }) in
    let rest = recv_loop grants (suc n - length r.1) (got ++ r.1) r.0 in
    if length r.1 == 0 then (r.0, none) else rest

module _ (layout : HeaderLayout) where
  -- The payload has `hdr.length` bytes, as at every call.
  unfoldable pub send_msg : (type status : ℕ) → Bytes → Socket → Socket × Bool
  send_msg type status payload s =
      let hdr : MessageHeader = record { type = type; length = length payload; status = status } in
      let r = write (layout.to_bytes hdr) s in
      if r.1 == layout.size then send_loop r.0.grants payload r.0 else (r.0, false)

  -- The header and the payload in `buf`, which has `buf_size` bytes.
  unfoldable pub recv_msg : (buf_size : ℕ) → Socket → Socket × Option (MessageHeader × Bytes)
  recv_msg buf_size s =
      let r = read layout.size s in
      let hdr = layout.from_bytes r.1 in
      let to_read = if ltb hdr.length buf_size then hdr.length else buf_size in
      let q = recv_loop r.0.grants to_read [] r.0 in
      if length r.1 == layout.size
      then (q.0, elim q.1 [ none ↦ none | some payload ↦ some (hdr, payload) ])
      else (r.0, none)
