-- ===== src/Hash.antt =====
-- `sha256_hex` of server/auth.c and server/admin.c: the digest of a password, computed by a shell.
-- The shell is code that the repository does not hold: `popen` takes the command line to what it
-- prints, or to nothing where it cannot be started.
use Prim.Native.Char.{code}
use Prim.Native.String.{String}
use online_auction_system.Base.{
  ℕ, zero, suc, Bool, false, Option, none, some, [], ◌∷◌, ◌++◌, ◌==◌, leb, if◌then◌else◌, length,
  take, replicate,
}
use online_auction_system.Base.Bytes.{Bytes, c_str}

-- The bytes of a C string literal.
abbrev pub bytes : String → Bytes
bytes String.[] = []
bytes (String.◌∷◌ c s) = code c ∷ bytes s

abbrev pub newline : ℕ
newline = b'\n'

-- What `fgets(out, n + 1, fp)` reads: at most `n` bytes, up to the first newline and with it.
unfoldable pub fgets : ℕ → Bytes → Bytes
fgets zero s = []
fgets (suc n) [] = []
fgets (suc n) (c ∷ s) = if c == newline then c ∷ [] else c ∷ fgets n s

-- The bytes before the first newline.
unfoldable pub strip_newline : Bytes → Bytes
strip_newline [] = []
strip_newline (c ∷ s) = if c == newline then [] else c ∷ strip_newline s

-- The input ends at its NUL or, unlike in the code, with its array.
-- `snprintf(cmd, 256, "echo -n '%s' | ...", input)`
abbrev pub command : Bytes → Bytes
command input =
    take 255
      (bytes "echo -n '" ++ (c_str input ++ bytes "' | openssl dgst -sha256 | awk '{print $2}'"))

-- What is left in `out`: a string of at most 64 bytes, and whether a NUL went to `out[64]`.
pub record Digest : Type 0 where
  pub text : Bytes
  pub fills_65 : Bool

unfoldable pub sha256_hex : (Bytes → Option Bytes) → Bytes → Digest
unfolding fgets strip_newline
sha256_hex popen input = elim (popen (command input)) [
  | none ↦ record { text = replicate 64 b'0'; fills_65 = false }
  | some printed ↦
      let line = fgets 64 printed in
      record { text = strip_newline line; fills_65 = leb 64 (length line) }
]
