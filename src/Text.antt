-- ===== src/Text.antt =====
-- The routines on strings of kernel/utilities/string.c. A string is the address of its first byte; NULL is 0, and
-- bytes are below 256. A loop that ends at a NUL byte has fuel, and is `none` when that is spent.
pub mod Length
pub mod Search
pub mod Copy
pub mod Compare
pub mod Number
mod Tests
use kalorona_kernel.Common.{
  ℕ, zero, suc, ◌+◌, ◌-◌, ◌*◌, ◌%◌, ◌^◌, Bool, true, false, ◌==◌, ◌&&◌, ◌||◌, not, ltb, leb,
  if◌then◌else◌, Option, none, some, write,
}
use kalorona_kernel.Common.Int.{ℤ, pos, sub_ℕ}
use kalorona_kernel.Common.Word.{sub64}
use kalorona_kernel.Memory.{Memory}

-- The loop of `strlen`.
pub strlen_from : ℕ → Memory → ℕ → ℕ → Option ℕ
strlen_from zero m s ret = none
strlen_from (suc fuel) m s ret =
    let next = strlen_from fuel m s (ret + 1) in if m (s + ret) == 0 then some ret else next

pub strlen : ℕ → Memory → ℕ → Option ℕ
unfolding strlen_from
strlen fuel m s = if s == 0 then some 0 else strlen_from fuel m s 0

-- The loop of `strnlen`, with the bytes left.
pub strnlen_from : Memory → ℕ → ℕ → ℕ → ℕ
strnlen_from m str ret zero = ret
strnlen_from m str ret (suc left) =
    let next = strnlen_from m str (ret + 1) left in if m (str + ret) == 0 then ret else next

pub strnlen : Memory → ℕ → ℕ → ℕ
unfolding strnlen_from
strnlen m str strsz = if str == 0 then 0 else strnlen_from m str 0 strsz

pub strchr : ℕ → Memory → ℕ → ℕ → Option ℕ
strchr zero m str ch = none
strchr (suc fuel) m str ch =
    let next = strchr fuel m (str + 1) ch in
    if m str == 0 then some 0 else if m str == ch % 256 then some str else next

-- The loop of `strrchr`: `tail` is `str + k`.
pub strrchr_down : Memory → ℕ → ℕ → ℕ → ℕ
strrchr_down m str ch zero = str
strrchr_down m str ch (suc k) =
    let next = strrchr_down m str ch k in if m (str + suc k) == ch % 256 then str + suc k else next

-- `tail` starts before the string when that is empty.
pub strrchr : ℕ → Memory → ℕ → ℕ → Option ℕ
unfolding strlen strrchr_down
strrchr fuel m str ch = elim (strlen fuel m str) [
  | none ↦ none
  | some n ↦
      let tail = if n == 0 then sub64 str 1 else strrchr_down m str ch (n - 1) in
      some (if m tail == ch % 256 then tail else 0)
]

-- The memory after `strcpy`, which returns its own `dst`.
pub strcpy : ℕ → Memory → ℕ → ℕ → Option Memory
strcpy zero m dst src = none
strcpy (suc fuel) m dst src =
    let next = strcpy fuel (write m dst (m src)) (dst + 1) (src + 1) in
    if m src == 0 then some (write m dst 0) else next

pub strncpy : Memory → ℕ → ℕ → ℕ → Memory
strncpy m dst src zero = write m dst 0
strncpy m dst src (suc siz) =
    let next = strncpy (write m dst (m src)) (dst + 1) (src + 1) siz in
    if m src == 0 then write m dst 0 else next

pub strcmp : ℕ → Memory → ℕ → ℕ → Option ℤ
strcmp zero m l r = none
strcmp (suc fuel) m l r =
    let next = strcmp fuel m (l + 1) (r + 1) in
    if (m l == m r) && not (m l == 0) then next else some (sub_ℕ (m l) (m r))

-- The loop of `strncmp`, with `n` counted down already.
pub strncmp_from : Memory → ℕ → ℕ → ℕ → ℤ
strncmp_from m l r zero = sub_ℕ (m l) (m r)
strncmp_from m l r (suc n) =
    let next = strncmp_from m (l + 1) (r + 1) n in
    if not (m l == 0) && not (m r == 0) && (m l == m r) then next else sub_ℕ (m l) (m r)

pub strncmp : Memory → ℕ → ℕ → ℕ → ℤ
unfolding strncmp_from
strncmp m l r zero = pos 0
strncmp m l r (suc n) = strncmp_from m l r n

-- 'A' - 'a' is -32.
pub tolower : ℕ → ℕ
tolower c = if leb 65 c && leb c 90 then (c + 32) % 256 else c

-- `__parse_integer_fixup_radix`: the string and the base.
pub parse_integer_fixup_radix : Memory → ℕ → ℕ → ℕ × ℕ
unfolding tolower
parse_integer_fixup_radix m s base =
    let hex = (m s == 48) && (tolower (m (s + 1)) == 120) in
    let octal = (m s == 48) && (base == 0) in
    if hex then (s + 2, 16) else (s, if octal then 8 else if base == 0 then 10 else base)

-- `__decode_digit`, a 32-bit unsigned number
pub decode_digit : ℕ → ℕ
unfolding tolower
decode_digit ch =
    let c = tolower (ch % 256) in
    if leb c 57 then (c + 2 ^ 32 - 48) % 2 ^ 32 else (c + 2 ^ 32 - 97 + 10) % 2 ^ 32

-- The loop of `strtoul`: the number, and where the string goes on.
pub strtoul_from : ℕ → Memory → ℕ → ℕ → ℕ → Option (ℕ × ℕ)
unfolding decode_digit
strtoul_from zero m str base result = none
strtoul_from (suc fuel) m str base result =
    let value = decode_digit (m str) in
    let next = strtoul_from fuel m (str + 1) base ((result * base + value) % 2 ^ 64) in
    if ltb value base then next else some (result, str)

pub strtoul : ℕ → Memory → ℕ → ℕ → Option (ℕ × ℕ)
unfolding parse_integer_fixup_radix strtoul_from
strtoul fuel m str base =
    let r = parse_integer_fixup_radix m str base in strtoul_from fuel m r.0 r.1 0
