-- ===== src/Console.antt =====
-- kernel/console/print.c: numbers and formatted text on the console. What is printed is a list of characters; the
-- calls of the spinlock and of the two output routines are events in their order. A word of the variable
-- arguments is a 64-bit number.
pub mod Digits
pub mod Readback
mod Tests
use kalorona_kernel.Common.{
  ℕ, zero, suc, ◌+◌, ◌-◌, ◌*◌, ◌/◌, ◌%◌, ◌^◌, Bool, true, false, ◌==◌, ◌&&◌, ltb, leb, not,
  if◌then◌else◌, Option, none, some, List, [], ◌∷◌, ◌++◌, map,
}
use kalorona_kernel.Common.Int.{ℤ, pos, negsuc}
use kalorona_kernel.Memory.{Memory}

-- `digits[d]`
pub digit_char : ℕ → ℕ
digit_char d = if ltb d 10 then 48 + d else 87 + d

-- The loop that fills `buf`, whose last character comes first here, with the places of `buf` left: it is `none` if the
-- loop would write past its end.
pub digits_of : ℕ → ℕ → ℕ → List ℕ → Option (List ℕ)
unfolding digit_char
digits_of zero x base buf = if x == 0 then some buf else none
digits_of (suc left) x base buf =
    let next = digits_of left (x / base) base (digit_char (x % base) ∷ buf) in
    if x == 0 then some buf else next

pub print_uint : ℕ → ℕ → Option (List ℕ)
unfolding digits_of
print_uint x base = if x == 0 then some (48 ∷ []) else digits_of 64 x base []

prefixed : List ℕ → Option (List ℕ) → Option (List ℕ)
prefixed cs none = none
prefixed cs (some ds) = some (cs ++ ds)

-- `x` is the word of an `int64`.
pub print_int : ℕ → ℕ → Option (List ℕ)
unfolding print_uint prefixed
print_int x base =
    if ltb x (2 ^ 63)
    then print_uint x base
    else prefixed (45 ∷ []) (print_uint ((2 ^ 64 - x) % 2 ^ 64) base)

-- An `int32` argument as an `int64`.
pub sign_extend : ℕ → ℕ
sign_extend x = if ltb (x % 2 ^ 32) (2 ^ 31) then x % 2 ^ 32 else x % 2 ^ 32 + 2 ^ 64 - 2 ^ 32

-- The loop of `%s`.
pub print_string : ℕ → Memory → ℕ → Option (List ℕ)
unfolding prefixed
print_string zero m s = none
print_string (suc fuel) m s =
    let next = prefixed (m s ∷ []) (print_string fuel m (s + 1)) in
    if m s == 0 then some [] else next

-- The conversions that take an argument.
pub conversion : ℕ → Memory → ℕ → ℕ → Option (List ℕ)
unfolding print_int print_uint sign_extend print_string prefixed
conversion fuel m c arg =
    if c == 100
    then print_int (sign_extend arg) 10
    else if c == 120
    then print_int (sign_extend arg) 16
    else if c == 112
    then prefixed (48 ∷ 120 ∷ []) (print_uint arg 16)
    else if c == 117
    then print_uint (arg % 2 ^ 32) 10
    else if c == 99
    then some (arg % 256 ∷ [])
    else if arg == 0
    then some (40 ∷ 110 ∷ 117 ∷ 108 ∷ 108 ∷ 41 ∷ [])
    else print_string fuel m arg

-- d, x, p, u, c and s
pub takes_argument : ℕ → Bool
takes_argument c =
    if c == 100
    then true
    else if c == 120
    then true
    else if c == 112
    then true
    else if c == 117
    then true
    else if c == 99
    then true
    else c == 115

appended : Option (List ℕ) → Option (List ℕ) → Option (List ℕ)
unfolding prefixed
appended none rest = none
appended (some cs) rest = prefixed cs rest

-- What `printf` prints for the character at `p` and what follows a `%`, where it goes on, and the arguments
-- left; an argument that is missing is `none`.
pub directive : ℕ → Memory → ℕ → List ℕ → Option (List ℕ × ℕ × List ℕ)
unfolding conversion takes_argument
directive fuel m p args =
    let c = m (p + 1) in
    let converted : Option (List ℕ × ℕ × List ℕ) = elim args [
      | [] ↦ none
      | arg ∷ rest ↦ elim (conversion fuel m c arg) [
        | none ↦ none
        | some cs ↦ some (cs, p + 2, rest)
      ]
    ] in
    if not (m p == 37)
    then some (m p ∷ [], p + 1, args)
    else if takes_argument c
    then converted
    else if c == 37
    then some (37 ∷ [], p + 2, args)
    else some (37 ∷ c ∷ [], p + 2, args)

-- The loop of `printf` from `&fmt[i]` on.
pub format : ℕ → Memory → ℕ → List ℕ → Option (List ℕ)
unfolding prefixed directive
format zero m p args = none
format (suc fuel) m p args =
    let next : Option (List ℕ) = elim (directive fuel m p args) [
      | none ↦ none
      | some r ↦ prefixed r.0 (format fuel m r.1 r.2)
    ] in
    if m p == 0 then some [] else if (m p == 37) && (m (p + 1) == 0) then some (37 ∷ []) else next

-- The loop of `print_buffer`, with the bytes left, and the newline behind it.
pub buffer_from : Memory → ℕ → ℕ → ℕ → ℕ → Option (List ℕ)
unfolding prefixed print_uint
buffer_from m buf size i zero = some (10 ∷ [])
buffer_from m buf size i (suc left) =
    let byte = m (buf + i) in
    let pad = if ltb byte 16 then 48 ∷ [] else [] in
    let newline = if ((i + 1) % 16 == 0) && not (i == size - 1) then 10 ∷ [] else [] in
    elim (print_uint byte 16) [
      | none ↦ none
      | some cs ↦ prefixed (pad ++ (cs ++ (32 ∷ newline))) (buffer_from m buf size (i + 1) left)
    ]

pub data Event : Type 0 where
  acquired : Event
  released : Event
  sbi_char : ℕ → Event
  uart_char : ℕ → Event

pub record Console : Type 0 where
  pub locking_enabled : Bool
  pub has_stdout_dev : Bool

pub print_char : Console → ℕ → Event
print_char con c = if con.has_stdout_dev then uart_char c else sbi_char c

-- What is printed, between the calls of the lock when locking is enabled.
pub locked : Console → List ℕ → List Event
unfolding print_char
locked con cs =
    let out = map (print_char con) cs in
    if con.locking_enabled then acquired ∷ (out ++ (released ∷ [])) else out

pub putchar : Console → ℕ → List Event
unfolding locked
putchar con c = locked con (c ∷ [])

pub printf : Console → ℕ → Memory → ℕ → List ℕ → Option (ℤ × List Event)
unfolding format locked
printf con fuel m fmt args =
    if fmt == 0
    then some (negsuc 0, [])
    else elim (format fuel m fmt args) [ none ↦ none | some cs ↦ some (pos 0, locked con cs) ]

pub print_buffer : Console → Memory → ℕ → ℕ → Option (List Event)
unfolding buffer_from locked
print_buffer con m buf size = elim (buffer_from m buf size 0 size) [
  | none ↦ none
  | some cs ↦ some (locked con cs)
]
