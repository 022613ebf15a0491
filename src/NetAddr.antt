-- ===== src/NetAddr.antt =====
-- rocket/rocket/net/TCP/net_addr.{h,cpp}: IPNetAddr. What inet_addr makes of a text is a parameter;
-- m_addr follows from the other two fields.
pub mod Decimal
pub mod Texts
use rpc4grad.Prelude.{
  ℕ, zero, suc, ◌+◌, ◌-◌, ◌*◌, ◌/◌, ◌%◌, ◌^◌, Bool, true, false, ◌&&◌, ◌||◌, List, [], ◌∷◌, ◌++◌,
  Option, none, some, ltb, leb, ◌==◌, if◌then◌else◌, Outcome, ok, fault, signed_overflow,
  invalid_argument, ◌>>=◌,
}
use rpc4grad.Prelude.Int.{ℤ, pos, negsuc, sub_ℕ}

pub record IpNetAddr : Type 0 where
  pub ip : List ℕ
  pub port : ℕ

-- The text before the first ':' and the text behind it. Where there is none, both are the whole
-- text: the index is npos, and npos + 1 is 0.
unfoldable pub split_colon : List ℕ → Option (List ℕ × List ℕ)
split_colon [] = none
split_colon (c ∷ cs) = elim (c == b':') [
  | true ↦ some ([], cs)
  | false ↦ elim (split_colon cs) [ none ↦ none | some (a, b) ↦ some (c ∷ a, b) ]
]

abbrev pub is_digit : ℕ → Bool
is_digit c = leb b'0' c && leb c b'9'

-- The number that the digits at the front make.
unfoldable pub digits_value : ℕ → List ℕ → ℕ
digits_value acc [] = acc
digits_value acc (c ∷ cs) =
    let rest = digits_value (acc * 10 + (c - b'0')) cs in if is_digit c then rest else acc

-- A number without a sign, if a digit comes first.
unfoldable pub unsigned : List ℕ → Option ℕ
unfolding digits_value
unsigned [] = none
unsigned (c ∷ cs) = if is_digit c then some (digits_value 0 (c ∷ cs)) else none

-- Spaces in front are passed over.
unfoldable pub skip_space : List ℕ → List ℕ
skip_space [] = []
skip_space (c ∷ cs) =
    let rest = skip_space cs in if (c == b' ') || (leb 9 c && leb c 13) then rest else c ∷ cs

-- strtol, in base 10.
unfoldable pub signed : List ℕ → Option ℤ
unfolding unsigned
signed [] = none
signed (c ∷ cs) =
    if c == b'-'
    then elim (unsigned cs) [ none ↦ none | some n ↦ some (sub_ℕ 0 n) ]
    else elim (unsigned (if c == b'+' then cs else c ∷ cs)) [ none ↦ none | some n ↦ some (pos n) ]

abbrev pub fits_int : ℤ → Bool
fits_int (pos n) = ltb n (2 ^ 31)
fits_int (negsuc n) = ltb n (2 ^ 31)

-- A number beyond int is undefined for atoi, and an exception of stoi.
unfoldable pub atoi : List ℕ → Outcome ℤ
unfolding signed skip_space
atoi s = elim (signed (skip_space s)) [
  | none ↦ ok (pos 0)
  | some z ↦ if fits_int z then ok z else fault signed_overflow
]

unfoldable pub stoi : List ℕ → Outcome ℤ
unfolding signed skip_space
stoi s = elim (signed (skip_space s)) [
  | none ↦ fault invalid_argument
  | some z ↦ if fits_int z then ok z else fault invalid_argument
]

-- The conversion to uint16_t.
abbrev pub to_port : ℤ → ℕ
to_port (pos n) = n % 2 ^ 16
to_port (negsuc n) = 2 ^ 16 - 1 - n % 2 ^ 16

-- IPNetAddr(const std::string& addr)
unfoldable pub new_addr : List ℕ → Outcome IpNetAddr
unfolding split_colon atoi
new_addr addr = elim (split_colon addr) [
  | none ↦ atoi addr >>= λ z. ok (record { ip = addr; port = to_port z })
  | some (a, b) ↦ atoi b >>= λ z. ok (record { ip = a; port = to_port z })
]

-- std::to_string of a number below 10 ^ fuel.
unfoldable pub decimal : ℕ → ℕ → List ℕ
decimal zero n = []
decimal (suc fuel) n =
    let front = decimal fuel (n / 10) in
    if ltb n 10 then (n + b'0') ∷ [] else front ++ ((n % 10 + b'0') ∷ [])

-- toString. A port has five digits at most.
unfoldable pub to_string : IpNetAddr → List ℕ
unfolding decimal
to_string a = a.ip ++ (b':' ∷ decimal 5 a.port)

abbrev pub is_nil : List ℕ → Bool
is_nil [] = true
is_nil (c ∷ cs) = false

-- CheckValid: the port is read after the test for empty texts.
unfoldable pub check_valid : (List ℕ → Bool) → List ℕ → Outcome Bool
unfolding split_colon stoi
check_valid inet addr = elim (split_colon addr) [
  | none ↦ ok false
  | some (a, b) ↦ elim (is_nil a || is_nil b) [
    | true ↦ ok false
    | false ↦ stoi b >>= λ z. elim z [
      | negsuc n ↦ ok false
      | pos n ↦ if ltb 65535 n then ok false else ok (inet a)
    ]
  ]
]
