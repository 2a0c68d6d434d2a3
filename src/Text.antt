-- ===== src/Text.antt =====
-- Text streams: the extractions of an `istringstream` that src/Configuration.cpp and src/Utils.h use,
-- and `getline`.
pub mod Decimal
use Prim.Native.Char.{code}
use Prim.Native.String.{String}
use cirrus.Prelude.{
  ℕ, zero, suc, ◌+◌, ◌-◌, ◌*◌, ◌/◌, ◌%◌, ◌^◌, Bool, true, false, ◌&&◌, ◌||◌, List, [], ◌∷◌, ◌==◌,
  leb, ltb, if◌then◌else◌, Option, none, some,
}

-- The character codes of a literal.
abbrev pub codes : String → List ℕ
codes String.[] = []
codes (String.◌∷◌ c s) = code c ∷ codes s

-- White space of the classic locale.
unfoldable pub is_space : ℕ → Bool
is_space c = c == b' ' || leb 9 c && leb c 13

unfoldable pub is_digit : ℕ → Bool
is_digit c = leb b'0' c && leb c b'9'

unfoldable pub skip_space : List ℕ → List ℕ
skip_space [] = []
skip_space (c ∷ cs) = if is_space c then skip_space cs else c ∷ cs

-- The characters up to the first white space, and the rest.
unfoldable pub split_word : List ℕ → List ℕ × List ℕ
split_word [] = ([], [])
split_word (c ∷ cs) =
    let (word, rest) = split_word cs in if is_space c then ([], c ∷ cs) else (c ∷ word, rest)

abbrev next_value : ℕ → Option ℕ → ℕ
next_value digit none = digit
next_value digit (some v) = v * 10 + digit

-- The value of the digits at the front; `none` if there are none.
unfoldable pub scan_digits : List ℕ → Option ℕ → Option ℕ
scan_digits [] sofar = sofar
scan_digits (c ∷ cs) sofar =
    let rest = scan_digits cs (some (next_value (c - b'0') sofar)) in
    if is_digit c then rest else sofar

-- What an extraction stores, and whether it sets the `failbit`.
abbrev pub Scanned : Type 0 → Type 0
Scanned V = V × Bool

-- A 64-bit number, signed to a magnitude: the number that is stored when all is well.
unfoldable pub fit : ℕ → (ℕ → ℕ) → ℕ → Option ℕ → Scanned ℕ
fit limit store at_overflow none = (0, true)
fit limit store at_overflow (some v) = if leb v limit then (store v, false) else (at_overflow, true)

-- `uint64_t`: a minus sign negates modulo 2^64.
unfoldable pub scan_u64 : List ℕ → Scanned ℕ
scan_u64 [] = (0, true)
scan_u64 (c ∷ cs) =
    if c == b'-'
    then fit (2 ^ 64 - 1) (λ v. (2 ^ 64 - v) % 2 ^ 64) (2 ^ 64 - 1) (scan_digits cs none)
    else fit (2 ^ 64 - 1) (λ v. v) (2 ^ 64 - 1)
        (scan_digits (if c == b'+' then cs else c ∷ cs) none)

-- `int`, as its bit pattern.
unfoldable pub scan_int : List ℕ → Scanned ℕ
scan_int [] = (0, true)
scan_int (c ∷ cs) =
    if c == b'-'
    then fit (2 ^ 31) (λ v. (2 ^ 32 - v) % 2 ^ 32) (2 ^ 31) (scan_digits cs none)
    else fit (2 ^ 31 - 1) (λ v. v) (2 ^ 31 - 1)
        (scan_digits (if c == b'+' then cs else c ∷ cs) none)

-- `bool`: a number other than 0 and 1 is stored as true and fails.
unfoldable pub scan_bool : List ℕ → Scanned Bool
scan_bool cs =
    let (v, failed) = scan_u64 cs in
    if v == 0 then (false, failed) else if v == 1 then (true, failed) else (true, true)

-- `std::string`
unfoldable pub scan_word : List ℕ → Scanned (List ℕ)
scan_word cs = ((split_word cs).0, false)

-- `iss >> value`: at the end of the stream the value stays and the stream fails.
unfoldable pub extract : {V : Type 0} → (List ℕ → Scanned V) → V → List ℕ → Scanned V
extract scan old cs = elim (skip_space cs) [ [] ↦ (old, true) | c ∷ cs' ↦ scan (c ∷ cs') ]

-- `string_to<C>`
unfoldable pub string_to : {V : Type 0} → (List ℕ → Scanned V) → V → List ℕ → V
string_to scan nothing [] = nothing
string_to scan nothing (c ∷ cs) = (extract scan nothing (c ∷ cs)).0

-- What `getline` returns, one line after another.
to_front : ℕ → List (List ℕ) → List (List ℕ)
to_front c [] = (c ∷ []) ∷ []
to_front c (line ∷ lines) = (c ∷ line) ∷ lines

unfoldable pub split_lines : List ℕ → List (List ℕ)
unfolding to_front
split_lines [] = []
split_lines (c ∷ cs) =
    let lines = split_lines cs in if c == b'\n' then [] ∷ lines else to_front c lines

-- `to_string` of a number, with `rest` behind it, on fuel.
unfoldable pub print_digits : ℕ → ℕ → List ℕ → List ℕ
print_digits zero n rest = rest
print_digits (suc fuel) n rest =
    let longer = print_digits fuel (n / 10) ((b'0' + n % 10) ∷ rest) in
    if ltb n 10 then (b'0' + n) ∷ rest else longer

unfoldable pub to_string : ℕ → List ℕ
to_string n = print_digits (n + 1) n []
