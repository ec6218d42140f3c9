-- ===== src/Wire/Send.antt =====
-- What `send_msg` of server/server.c writes to a socket.
use online_auction_system.Base.{
  ℕ, zero, suc, ◌≤◌, ◌≡◌, refl, ap, ◌∙◌, min, true, false, List, [], ◌∷◌, ◌++◌, length, take, drop,
  arith, ◌==◌, append_assoc, append-nil, take-append-drop, take_capped, take_all, ==_self,
  length-drop,
}
use online_auction_system.Base.Bytes.{Bytes}
use online_auction_system.Wire.{MessageHeader, HeaderLayout, Socket, write, send_loop, send_msg}

-- Each of the next `n` calls is granted at least one byte.
abbrev pub Flows : ℕ → List ℕ → Type 0
Flows zero grants = Unit
Flows (suc n) [] = ⊥
Flows (suc n) (k ∷ grants) = (1 ≤ k) × Flows n grants

pub Flows-fewer : (n m : ℕ) (grants : List ℕ) → m ≤ n → Flows n grants → Flows m grants
Flows-fewer n zero grants h f = tt
Flows-fewer zero (suc m) grants h f = absurd (omega arith)
Flows-fewer (suc n) (suc m) [] h f = f
Flows-fewer (suc n) (suc m) (k ∷ grants) h f = (f.0, Flows-fewer n m grants (omega arith) f.1)

-- The next call is granted `n` bytes, and each of the `m` calls after it at least one.
abbrev pub FlowsAfter : ℕ → ℕ → List ℕ → Type 0
FlowsAfter n m [] = ⊥
FlowsAfter n m (k ∷ grants) = (n ≤ k) × Flows m grants

-- A socket on which more has been written.
abbrev pub written : Socket → Bytes → List ℕ → Socket
written s bytes grants = record s { outgoing = s.outgoing ++ bytes; grants = grants }

write-written :
    (bytes : Bytes) (s : Socket) (grants : List ℕ) (m : ℕ)
    → FlowsAfter (length bytes) m grants
    → (left : List ℕ) × Flows m left
      × (write bytes (record s { grants = grants }) ≡ (written s bytes left, length bytes))
write-written bytes s [] m f = absurd f
write-written bytes s (k ∷ left) m (enough, f) =
    let all : take k bytes ≡ bytes =
      take_capped k (length bytes) bytes (omega arith)
      ∙ take_all (length bytes) bytes (omega arith) in
    let n : min k (length bytes) ≡ length bytes = omega arith in (left, f, rw (all, n) refl)

pub send_loop-written :
    (grants : List ℕ) (bytes : Bytes) (s : Socket)
    → Flows (length bytes) grants
    → (left : List ℕ) × (send_loop grants bytes s ≡ (written s bytes left, true))
unfolding send_loop
send_loop-written grants [] s f = (grants, rw (append-nil s.outgoing) refl)
send_loop-written [] (b ∷ bytes) s f = absurd f
send_loop-written (k ∷ grants) (b ∷ bytes) s f =
    let all = b ∷ bytes in
    let j = min k (length all) in
    let s1 = written s (take k all) grants in
    let moves : (j == 0) ≡ false = ground arith in
    let size = length-drop j all in
    let (left, e) =
      send_loop-written grants (drop j all) s1
        (Flows-fewer (length bytes) (length (drop j all)) grants (omega arith) f.1) in
    let whole : take k all ++ drop j all ≡ all =
      ap (λ xs. xs ++ drop j all) (take_capped k j all refl) ∙ take-append-drop j all in
    let joined : s1.outgoing ++ drop j all ≡ s.outgoing ++ all =
      append_assoc s.outgoing (take k all) (drop j all) ∙ ap (λ xs. s.outgoing ++ xs) whole in
    (left, rw moves (e ∙ ap (λ o. (record s { outgoing = o; grants = left }, true)) joined))

module _ (layout : HeaderLayout) where
  -- Where the kernel takes the header at once and then, at each call, some of what it is given, the
  -- header and the payload are written, in this order and whole, and the call succeeds.
  pub send_msg-written :
      (type status : ℕ) (payload : Bytes) (s : Socket)
      → FlowsAfter layout.size (length payload) s.grants
      → let hdr : MessageHeader = record {
        type = type;
        length = length payload;
        status = status;
      } in
        (left : List ℕ) × (send_msg layout type status payload s
          ≡ (written s (layout.to_bytes hdr ++ payload) left, true))
  unfolding send_msg
  send_msg-written type status payload s f =
      let hdr : MessageHeader = record { type = type; length = length payload; status = status } in
      let size = layout.length-to_bytes hdr in
      let (grants, g, e) =
        write-written (layout.to_bytes hdr) s s.grants (length payload) (rw size f) in
      let (left, q) = send_loop-written grants payload (written s (layout.to_bytes hdr) grants) g in
      (
        left,
        rw (e, size, ==_self layout.size)
            (q
              ∙ ap (λ o. (record s { outgoing = o; grants = left }, true))
                  (append_assoc s.outgoing (layout.to_bytes hdr) payload)),
      )
