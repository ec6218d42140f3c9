-- ===== src/Client/Socket.antt =====
-- `send_msg` and `recv_msg` of client/client.c, on the sockets of Wire. Unlike the server's, `send_msg`
-- makes one `write` for the payload.
use online_auction_system.Base.{
  ℕ, ◌≡◌, ◌∙◌, sym, ap, min, Bool, true, false, Option, some, List, ◌≤◌, ◌<◌, ◌^◌, drop,
  length-append, drop-append_left, take-append_left, ◌++◌, ◌∷◌, [], length, take, take_all,
  take_capped, ◌==◌, if◌then◌else◌, arith, Bool-cases, inl, inr, append_assoc, append-nil, refl,
}
use online_auction_system.Base.Bytes.{Bytes}
use online_auction_system.Wire.Send.{FlowsAfter}
use online_auction_system.Wire.Recv.{recv_msg-read, same_message}
use online_auction_system.Wire.{MessageHeader, HeaderLayout, Socket, write, recv_msg}

module _ (layout : HeaderLayout) where
  -- The payload is there whenever its length is not 0, as at every call.
  unfoldable pub send_request : (type : ℕ) → Bytes → Socket → Socket × Bool
  send_request type payload s =
      let hdr : MessageHeader = record { type = type; length = length payload; status = 0 } in
      let r = write (layout.to_bytes hdr) s in
      let q = write payload r.0 in
      if r.1 == layout.size
      then (if length payload == 0 then (r.0, true) else (q.0, q.1 == length payload))
      else (r.0, false)

-- `recv_msg` of the client, which has the server's statements.
abbrev pub receive_answer : HeaderLayout → ℕ → Socket → Socket × Option (MessageHeader × Bytes)
receive_answer = recv_msg

append-empty : (o bytes : Bytes) → 0 ≡ length bytes → o ≡ o ++ bytes
append-empty o [] e = sym (append-nil o)
append-empty o (b ∷ bytes) e = absurd (omega arith)

-- A `write` that says it took everything has.
write-whole :
    (bytes : Bytes) (s : Socket)
    → (write bytes s).1 ≡ length bytes
    → (write bytes s).0.outgoing ≡ s.outgoing ++ bytes
write-whole bytes s e = go s.grants refl e
  where
    go :
        (grants : List ℕ)
        → s.grants ≡ grants
        → (write bytes s).1 ≡ length bytes
        → (write bytes s).0.outgoing ≡ s.outgoing ++ bytes
    go [] g h =
        let none_taken : 0 ≡ length bytes = rw g at h in
        rw g (append-empty s.outgoing bytes none_taken)
    go (k ∷ grants) g h =
        let taken : min k (length bytes) ≡ length bytes = rw g at h in
        let all : take k bytes ≡ bytes =
          take_capped k (length bytes) bytes (omega arith)
          ∙ take_all (length bytes) bytes (omega arith) in
        rw (g, all) refl

module _ (layout : HeaderLayout) where
  -- When the client's `send_msg` reports success, the header and the whole payload have been written,
  -- in this order: a partial write is always reported as a failure.
  pub send_request-outgoing :
      (type : ℕ) (payload : Bytes) (s : Socket)
      → (send_request layout type payload s).1 ≡ true
      → let hdr : MessageHeader = record { type = type; length = length payload; status = 0 } in
        (send_request layout type payload s).0.outgoing
        ≡ s.outgoing ++ (layout.to_bytes hdr ++ payload)
  unfolding send_request
  send_request-outgoing type payload s e =
      let hdr : MessageHeader = record { type = type; length = length payload; status = 0 } in
      let size = layout.length-to_bytes hdr in
      let r = write (layout.to_bytes hdr) s in
      let q = write payload r.0 in
      elim (Bool-cases (r.1 == layout.size)) [
        | inr short ↦ absurd (ground (arith, e))
        | inl sent ↦
            let header = write-whole (layout.to_bytes hdr) s (ground (arith, size)) in
            elim (Bool-cases (length payload == 0)) [
              | inl empty ↦
                  rw (sent, empty, send_request)
                    (header
                      ∙ append-empty _ payload (ground arith)
                      ∙ append_assoc s.outgoing (layout.to_bytes hdr) payload)
              | inr more ↦ elim (Bool-cases (q.1 == length payload)) [
                | inr short ↦ absurd (ground (arith, e))
                | inl whole ↦
                    rw (sent, more, send_request)
                      (write-whole payload r.0 (ground arith)
                        ∙ ap (λ o. o ++ payload) header
                        ∙ append_assoc s.outgoing (layout.to_bytes hdr) payload)
              ]
            ]
      ]

-- What the client's `send_msg` has sent with success is received whole by the server's `recv_msg`, and
-- what follows it is read next, where type and length fit in 32 bits, the buffer has room, the header arrives in one call and every
-- further call gives at least one byte.
pub send_request-recv_msg :
    (layout : HeaderLayout) (type : ℕ) (payload more : Bytes) (buf_size : ℕ) (s t : Socket)
    → type < 2 ^ 32
    → length payload < 2 ^ 32
    → s.outgoing ≡ []
    → (send_request layout type payload s).1 ≡ true
    → t.incoming ≡ (send_request layout type payload s).0.outgoing ++ more
    → FlowsAfter layout.size (length payload) t.grants
    → length payload ≤ buf_size
    → let hdr : MessageHeader = record { type = type; length = length payload; status = 0 } in
      (left : List ℕ) × (recv_msg layout buf_size t
        ≡ (record t { incoming = more; grants = left }, some (hdr, payload)))
send_request-recv_msg layout type payload more buf_size s t low short fresh sent arrives flows
      room =
    let hdr : MessageHeader = record { type = type; length = length payload; status = 0 } in
    let n : min (length payload) buf_size ≡ length payload = omega arith in
    let stream : t.incoming ≡ layout.to_bytes hdr ++ (payload ++ more) =
      arrives
      ∙ ap (λ o. o ++ more) (send_request-outgoing layout type payload s sent)
      ∙ ap (λ o. (o ++ (layout.to_bytes hdr ++ payload)) ++ more) fresh
      ∙ append_assoc (layout.to_bytes hdr) payload more in
    let (rest, got) =
      recv_msg-read layout hdr (payload ++ more) buf_size t (low, short, omega arith) stream
        (omega (arith, length-append payload more)) (rw n flows) in
    (
      rest,
      got
          ∙ same_message (record t { grants = rest }) hdr
              (ap (λ k. drop k (payload ++ more)) n ∙ drop-append_left payload more)
              (ap (λ k. take k (payload ++ more)) n ∙ take-append_left payload more),
    )
