-- ===== src/Client/Steps.antt =====
-- What a request of client/client.c may do to the terminal of a user of a given role: read on from
-- the keyboard, and send what the server lets through to this role.
use online_auction_system.Base.{
  ℕ, ◌-◌, ◌≤◌, ◌≡◌, ◌∙◌, refl, Bool, true, false, Option, List, [], ◌∷◌, ◌==◌, if◌then◌else◌,
  length, length-drop, All, arith, Bool-cases, inl, inr,
}
use online_auction_system.Base.Bytes.{Bytes}
use online_auction_system.Models.{Role}
use online_auction_system.Hash.{fgets}
use online_auction_system.Server.Dispatch.{Request, permits}
use online_auction_system.Client.{
  Platform, Reply, Sent, plain, add_user_form, change_role_form, Notice, Terminal, print, read_line,
  read_int, read_double, exchange,
}
use online_auction_system.Client.Requests.{print_rows, print_list}

-- The server lets the request through to a user of role `r`, whatever role a number stands for.
abbrev pub IsAllowed : Role → Sent → Type 0
IsAllowed r (plain req) = permits req r ≡ true
IsAllowed r (add_user_form f) =
    (v : Role)
    → permits
        (Request.add_user (record {
          username = f.username;
          password = f.password;
          full_name = f.full_name;
          role = v;
        }))
        r
      ≡ true
IsAllowed r (change_role_form f) =
    (v : Role)
    → permits (Request.change_role (record { target_user_id = f.target_user_id; new_role = v })) r
      ≡ true

pub record Steps (r : Role) (t t' : Terminal) : Type 0 where
  pub reads : length t'.stdin ≤ length t.stdin
  pub same_user : t'.me ≡ t.me
  pub allowed : All (IsAllowed r) t.sent → All (IsAllowed r) t'.sent

pub Steps-refl : (r : Role) (t : Terminal) → Steps r t t
Steps-refl r t = record { reads = omega arith; same_user = refl; allowed = λ h. h }

pub Steps-trans : {r : Role} {t t' t'' : Terminal} → Steps r t t' → Steps r t' t'' → Steps r t t''
Steps-trans a b = record {
  reads = omega (arith, a.reads, b.reads);
  same_user = b.same_user ∙ a.same_user;
  allowed = λ h. b.allowed (a.allowed h);
}

pub print-Steps : {r : Role} {t t' : Terminal} (n : Notice) → Steps r t t' → Steps r t (print n t')
print-Steps n a = record { reads = a.reads; same_user = a.same_user; allowed = a.allowed }

pub choose-Steps :
    {r : Role} {t x y : Terminal} (b : Bool)
    → Steps r t x
    → Steps r t y
    → Steps r t (if b then x else y)
choose-Steps true p q = p
choose-Steps false p q = q

print_rows-Steps :
    {r : Role} {t t' : Terminal} (ns : List Notice) → Steps r t t' → Steps r t (print_rows ns t')
unfolding print_rows
print_rows-Steps [] a = a
print_rows-Steps (n ∷ ns) a = print_rows-Steps ns (print-Steps n a)

pub print_list-Steps :
    {r : Role} {t t' : Terminal} (n : Notice) (ns : List Notice)
    → Steps r t t'
    → Steps r t (print_list n ns t')
unfolding print_list
print_list-Steps n [] a = print-Steps n a
print_list-Steps n (m ∷ ns) a = print_rows-Steps (m ∷ ns) a

pub read_line-Steps :
    {r : Role} (size : ℕ) (buf : Bytes) {t t' : Terminal}
    → Steps r t t'
    → Steps r t (read_line size buf t').1
unfolding read_line
read_line-Steps size buf {t} {t'} a =
    let line = fgets (size - 1) t'.stdin in
    let shorter = length-drop (length line) t'.stdin in
    elim (Bool-cases (length line == 0)) [
      | inl over ↦ rw over a
      | inr more ↦ rw more record {
        reads = omega (arith, a.reads, shorter);
        same_user = a.same_user;
        allowed = a.allowed;
      }
    ]

pub exchange-Steps :
    {r : Role} (s : Sent) {t t' : Terminal}
    → IsAllowed r s
    → Steps r t t'
    → Steps r t (exchange s t').0
exchange-Steps {r} s {t} {t'} h a = go t'.arriving refl
  where
    go : (arriving : List (Option Reply)) → t'.arriving ≡ arriving → Steps r t (exchange s t').0
    go [] e =
        rw e record { reads = a.reads; same_user = a.same_user; allowed = λ k. (h, a.allowed k) }
    go (x ∷ arriving) e =
        rw e record { reads = a.reads; same_user = a.same_user; allowed = λ k. (h, a.allowed k) }

module _ (p : Platform) where
  pub read_int-Steps : {r : Role} {t t' : Terminal} → Steps r t t' → Steps r t (read_int p t').1
  unfolding read_int
  read_int-Steps a = read_line-Steps 32 (p.stack 32) a

  pub read_double-Steps :
      {r : Role} {t t' : Terminal} → Steps r t t' → Steps r t (read_double p t').1
  unfolding read_double
  read_double-Steps a = read_line-Steps 64 (p.stack 64) a
