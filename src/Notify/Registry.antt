-- ===== src/Notify/Registry.antt =====
-- The registry of server/notify.c: entries that are made, found and removed.
use online_auction_system.Base.{
  ℕ, ◌+◌, ◌-◌, ◌≤◌, ◌≡◌, refl, Bool, true, false, arith, ◌&&◌, ◌==◌, if◌then◌else◌, List, [], ◌∷◌,
  ==_self,
}
use online_auction_system.Base.Money.{ℤ, negsuc}
use online_auction_system.World.{RegistryEntry}
use online_auction_system.Notify.{register, unregister, lookup_fd}

abbrev entry_weight : ℕ → RegistryEntry → ℕ
entry_weight k e = if e.active && e.user_id == k then 1 else 0

-- How many active entries a user has.
unfoldable pub entries_of : ℕ → List RegistryEntry → ℕ
entries_of k [] = 0
entries_of k (e ∷ es) = entry_weight k e + entries_of k es

-- Some entry is free.
unfoldable pub has_free : List RegistryEntry → Bool
has_free [] = false
has_free (e ∷ es) = if e.active then has_free es else true

pub entries_of-register :
    (j k : ℕ) (fd : ℤ) (es : List RegistryEntry)
    → entries_of j (register k fd es) ≤ entries_of j es + (if k == j then 1 else 0)
unfolding entries_of register
entries_of-register j k fd [] = omega arith
entries_of-register j k fd (e ∷ es) = ground (arith, entries_of-register j k fd es)

pub entries_of-unregister :
    (j k : ℕ) (es : List RegistryEntry)
    → entries_of j (unregister k es) ≡ entries_of j es - (if k == j then 1 else 0)
unfolding entries_of unregister
entries_of-unregister j k [] = ground arith
entries_of-unregister j k (e ∷ es) = ground (arith, entries_of-unregister j k es)

-- A user without an entry who is registered where one is free is found at the socket given.
pub lookup_fd-register :
    (k : ℕ) (fd : ℤ) (es : List RegistryEntry)
    → entries_of k es ≡ 0
    → has_free es ≡ true
    → lookup_fd k (register k fd es) ≡ fd
unfolding entries_of register lookup_fd has_free
lookup_fd-register k fd [] none_yet free = absurd cc
lookup_fd-register k fd (e ∷ es) none_yet free =
    ground (arith, lookup_fd-register k fd es, ==_self k)

-- A user without an entry is not found.
pub lookup_fd-absent :
    (k : ℕ) (es : List RegistryEntry) → entries_of k es ≡ 0 → lookup_fd k es ≡ negsuc 0
unfolding entries_of lookup_fd
lookup_fd-absent k [] none_left = refl
lookup_fd-absent k (e ∷ es) none_left = ground (arith, lookup_fd-absent k es)
