-- ===== src/Wire/Recv.antt =====
-- What `recv_msg` of server/server.c reads from a socket, by itself and after `send_msg`.
use online_auction_system.Base.{
  ℕ, zero, suc, ◌-◌, ◌≤◌, ◌<◌, ◌^◌, ◌≡◌, refl, ap, subst, ◌∙◌, min, true, false, Option, some, List,
  [], ◌∷◌, ◌++◌, length, take, drop, arith, ltb, ◌==◌, if◌then◌else◌, append_assoc, append-nil,
  ==_self, take-append-take, drop-drop, take-append_left, drop-append_left, length-take,
  length-drop, length-append,
}
use online_auction_system.Base.Bytes.{Bytes}
use online_auction_system.Wire.{
  MessageHeader, FitsWords, HeaderLayout, Socket, read, recv_loop, send_msg, recv_msg,
}
use online_auction_system.Wire.Send.{Flows, Flows-fewer, FlowsAfter, send_msg-written}

-- A socket from which `n` bytes have been read.
abbrev pub read_off : Socket → ℕ → List ℕ → Socket
read_off s n grants = record s { incoming = drop n s.incoming; grants = grants }

same_read :
    (s : Socket) {i i' b b' : Bytes}
    → i ≡ i'
    → b ≡ b'
    → Path
        (Socket × Option Bytes)
        (record s { incoming = i }, some b)
        (record s { incoming = i' }, some b')
same_read s p q = rw (p, q) refl

pub same_message :
    (s : Socket) (hdr : MessageHeader) {i i' b b' : Bytes}
    → i ≡ i'
    → b ≡ b'
    → Path
        (Socket × Option (MessageHeader × Bytes))
        (record s { incoming = i }, some (hdr, b))
        (record s { incoming = i' }, some (hdr, b'))
same_message s hdr p q = rw (p, q) refl

-- One round of the loop, at which `j` bytes arrive.
recv_loop-round :
    (k : ℕ) (grants : List ℕ) (n : ℕ) (got : Bytes) (s : Socket) (j : ℕ)
    → min k (suc n) ≡ j
    → j ≤ length s.incoming
    → 1 ≤ j
    → recv_loop (k ∷ grants) (suc n) got s
      ≡ recv_loop grants (suc n - j) (got ++ take j s.incoming) (read_off s j grants)
unfolding recv_loop
recv_loop-round k grants n got s j e h p =
    let size : length (take j s.incoming) ≡ j = omega (arith, length-take j s.incoming) in
    let moves : (j == 0) ≡ false = ground arith in rw (e, size, moves) refl

recv_loop-got :
    (grants : List ℕ) (n : ℕ) (got : Bytes) (s : Socket)
    → Flows n grants
    → n ≤ length s.incoming
    → (left : List ℕ) × (recv_loop grants n got s
        ≡ (read_off s n left, some (got ++ take n s.incoming)))
unfolding recv_loop
recv_loop-got grants zero got s f h = (grants, rw (append-nil got) refl)
recv_loop-got [] (suc n) got s f h = absurd f
recv_loop-got (k ∷ grants) (suc n) got s f h =
    let j = min k (suc n) in
    let rest = length-drop j s.incoming in
    let (left, e) =
      recv_loop-got grants (suc n - j) (got ++ take j s.incoming) (read_off s j grants)
        (Flows-fewer n (suc n - j) grants (omega arith) f.1) (omega arith) in
    let joined =
      append_assoc got (take j s.incoming) (take (suc n - j) (drop j s.incoming))
      ∙ ap (λ xs. got ++ xs) (take-append-take j (suc n - j) (suc n) s.incoming (omega arith)) in
    (
      left,
      recv_loop-round k grants n got s j refl (omega arith) (omega arith)
          ∙ e
          ∙ same_read (read_off s 0 left) (drop-drop j (suc n - j) (suc n) s.incoming (omega arith))
              joined,
    )

read-whole :
    (bytes more : Bytes) (s : Socket) (grants : List ℕ) (m : ℕ)
    → FlowsAfter (length bytes) m grants
    → s.incoming ≡ bytes ++ more
    → (left : List ℕ) × Flows m left
      × (read (length bytes) (record s { grants = grants })
          ≡ (record s { incoming = more; grants = left }, bytes))
read-whole bytes more s [] m f e = absurd f
read-whole bytes more s (k ∷ left) m (enough, f) e =
    let n : min k (length bytes) ≡ length bytes = omega arith in
    (left, f, rw (n, e, take-append_left bytes more, drop-append_left bytes more) refl)

module _ (layout : HeaderLayout) where
  -- The parts of a call that succeeds.
  recv_msg-runs :
      (hdr : MessageHeader) (buf_size : ℕ) (s : Socket) {n : ℕ} {s1 s2 : Socket} {payload : Bytes}
      → FitsWords hdr
      → (if ltb hdr.length buf_size then hdr.length else buf_size) ≡ n
      → read layout.size s ≡ (s1, layout.to_bytes hdr)
      → recv_loop s1.grants n [] s1 ≡ (s2, some payload)
      → recv_msg layout buf_size s ≡ (s2, some (hdr, payload))
  unfolding recv_msg
  recv_msg-runs hdr buf_size s fits m q r =
      rw
        (
          q,
          layout.length-to_bytes hdr,
          ==_self layout.size,
          layout.from_bytes-to_bytes hdr fits,
          m,
          r,
          q,
          layout.from_bytes-to_bytes hdr fits,
        )
        refl

  -- What `recv_msg` does to a socket on which a message arrives whose header, of 32-bit fields, says
  -- `hdr.length`: it takes the header and at most `buf_size` bytes, and leaves all the rest to be read
  -- next. The header must come in one call, every further call must give at least one byte, and enough
  -- bytes must be there.
  pub recv_msg-read :
      (hdr : MessageHeader) (body : Bytes) (buf_size : ℕ) (s : Socket)
      → FitsWords hdr
      → let n = min hdr.length buf_size in
        s.incoming ≡ layout.to_bytes hdr ++ body
        → n ≤ length body
        → FlowsAfter layout.size n s.grants
        → (left : List ℕ) × (recv_msg layout buf_size s
            ≡ (record s { incoming = drop n body; grants = left }, some (hdr, take n body)))
  unfolding recv_msg
  recv_msg-read hdr body buf_size s fits e h f =
      let n = min hdr.length buf_size in
      let size = layout.length-to_bytes hdr in
      let (grants, g, q) = read-whole (layout.to_bytes hdr) body s s.grants n (rw size f) e in
      let s1 : Socket = record s { incoming = body; grants = grants } in
      let (left, r) = recv_loop-got grants n [] s1 g h in
      (
        left,
        recv_msg-runs hdr buf_size s fits (ground arith)
            (subst (λ k. read k s ≡ (s1, layout.to_bytes hdr)) size q) r,
      )

  -- What one end sends with `send_msg`, the other end receives with `recv_msg`: the call succeeds,
  -- the receiver gets the same type, status and payload, and what was sent after it is read next.
  -- The type, the status and the length of the payload must fit in 32 bits, the buffer must have room
  -- for the payload, the header must move in one call at each end, and every further call must move at
  -- least one byte.
  pub recv_msg-send_msg :
      (type status : ℕ) (payload more : Bytes) (buf_size : ℕ) (s t : Socket)
      → type < 2 ^ 32
      → length payload < 2 ^ 32
      → status < 2 ^ 32
      → s.outgoing ≡ []
      → FlowsAfter layout.size (length payload) s.grants
      → t.incoming ≡ (send_msg layout type status payload s).0.outgoing ++ more
      → FlowsAfter layout.size (length payload) t.grants
      → length payload ≤ buf_size
      → let hdr : MessageHeader = record {
        type = type;
        length = length payload;
        status = status;
      } in
        ((send_msg layout type status payload s).1 ≡ true)
        × (left : List ℕ) × (recv_msg layout buf_size t
            ≡ (record t { incoming = more; grants = left }, some (hdr, payload)))
  recv_msg-send_msg type status payload more buf_size s t low short flag fresh fs arrives ft room =
      let hdr : MessageHeader = record { type = type; length = length payload; status = status } in
      let (left, sent) = send_msg-written layout type status payload s fs in
      let n : min (length payload) buf_size ≡ length payload = omega arith in
      let stream : t.incoming ≡ layout.to_bytes hdr ++ (payload ++ more) =
        arrives
        ∙ ap (λ r. r.0.outgoing ++ more) sent
        ∙ ap (λ o. (o ++ (layout.to_bytes hdr ++ payload)) ++ more) fresh
        ∙ append_assoc (layout.to_bytes hdr) payload more in
      let (rest, got) =
        recv_msg-read hdr (payload ++ more) buf_size t (low, short, flag) stream
          (omega (arith, length-append payload more)) (rw n ft) in
      (
        ap (λ r. r.1) sent,
        rest,
        got
            ∙ same_message (record t { grants = rest }) hdr
                (ap (λ k. drop k (payload ++ more)) n ∙ drop-append_left payload more)
                (ap (λ k. take k (payload ++ more)) n ∙ take-append_left payload more),
      )
