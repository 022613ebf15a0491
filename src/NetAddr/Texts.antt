-- ===== src/NetAddr/Texts.antt =====
-- IPNetAddr: an address is read back from its text, and its text is valid.
use rpc4grad.Prelude.{
  ℕ, ◌%◌, ◌^◌, ◌<◌, ◌≡◌, ◌≢◌, refl, arith, Bool, true, false, List, [], ◌∷◌, ◌++◌, some, ltb, ◌==◌,
  ok,
}
use rpc4grad.Prelude.Int.{pos}
use rpc4grad.NetAddr.{
  IpNetAddr, split_colon, atoi, stoi, new_addr, to_string, decimal, check_valid, is_nil,
}
use rpc4grad.NetAddr.Decimal.{signed-decimal, decimal-nonempty}

-- A text with no ':' in it.
abbrev pub NoColon : List ℕ → Type 0
NoColon [] = Unit {0}
NoColon (c ∷ cs) = (c ≢ b':') × NoColon cs

split_colon-append : (a b : List ℕ) → NoColon a → split_colon (a ++ (b':' ∷ b)) ≡ some (a, b)
unfolding split_colon
split_colon-append [] b n = refl
split_colon-append (c ∷ cs) b n =
    let other : (c == b':') ≡ false = ground (arith, n.0) in
    rw (split_colon, other, split_colon-append cs b n.1)

atoi-decimal : (n : ℕ) → n < 2 ^ 16 → atoi (decimal 5 n) ≡ ok (pos n)
unfolding atoi
atoi-decimal n h =
    let small : ltb n (2 ^ 31) ≡ true = ground arith in
    rw (atoi, signed-decimal n (omega arith), small)

stoi-decimal : (n : ℕ) → n < 2 ^ 16 → stoi (decimal 5 n) ≡ ok (pos n)
unfolding stoi
stoi-decimal n h =
    let small : ltb n (2 ^ 31) ≡ true = ground arith in
    rw (stoi, signed-decimal n (omega arith), small)

-- The address that is made from the text of an address is that address, if the port is one and
-- there is no ':' in the ip.
pub new_addr-to_string :
    (a : IpNetAddr) → NoColon a.ip → a.port < 2 ^ 16 → new_addr (to_string a) ≡ ok a
unfolding new_addr to_string
new_addr-to_string a n h =
    let whole : a.port % 2 ^ 16 ≡ a.port = omega arith in
    simp (new_addr, split_colon-append a.ip (decimal 5 a.port) n, atoi-decimal a.port h, whole)

-- The text of an address with a port below 65536 is valid exactly if inet_addr takes its ip,
-- which has no colon and is not empty.
pub check_valid-to_string :
    (inet : List ℕ → Bool) (a : IpNetAddr)
    → NoColon a.ip
    → is_nil a.ip ≡ false
    → a.port < 2 ^ 16
    → check_valid inet (to_string a) ≡ ok (inet a.ip)
unfolding check_valid to_string
check_valid-to_string inet a n e h =
    let in_range : ltb 65535 a.port ≡ false = ground arith in
    rw (
      check_valid,
      split_colon-append a.ip (decimal 5 a.port) n,
      e,
      decimal-nonempty a.port,
      stoi-decimal a.port h,
      in_range,
    )
