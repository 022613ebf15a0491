-- ===== src/Rpc/FindAddr.antt =====
-- RpcChannel::FindAddr: the address of a text, which is an address itself or the name of a stub.
use rpc4grad.Prelude.Int.{ℤ}
use rpc4grad.Prelude.{
  sym, ap, ◌++◌, >>=-eq-ok, ok-injective, ℕ, ◌^◌, ◌<◌, ◌≡◌, ◌∙◌, Bool, true, false, Option, none,
  some, List, [], ◌∷◌, if◌then◌else◌, Outcome, ok, fault, null_pointer, ◌>>=◌,
}
use rpc4grad.Connection.Callbacks.{str_eq_refl}
use rpc4grad.NetAddr.{IpNetAddr, stoi, to_port, to_string, new_addr, check_valid, is_nil}
use rpc4grad.NetAddr.Texts.{NoColon, new_addr-to_string, check_valid-to_string}
use rpc4grad.Log.Level.{LogLevel, is_logged, infolog}
use rpc4grad.Config.{
  Config, RpcStub, Xml, name_node, ip_node, port_node, int_to_string, stub_text, find_stub,
  insert_stub, read_stub, read_stubs,
}
use rpc4grad.Config.Stubs.{
  or_else, addr_for, IsReadFrom, find_stub-insert_stub, read_stub-IsReadFrom, read_stubs-append,
  read_stubs-find_stub,
}

-- The log line about a stub that is found needs its address.
unfoldable pub stub_found : LogLevel → RpcStub → Outcome (Option IpNetAddr)
unfolding is_logged
stub_found level s = elim s.addr [
  | some a ↦ ok (some a)
  | none ↦ if is_logged infolog level then fault null_pointer else ok none
]

unfoldable pub search_stubs : LogLevel → Config → List ℕ → Outcome (Option IpNetAddr)
unfolding stub_found
search_stubs level c str = elim (find_stub str c.rpc_stubs) [
  | none ↦ ok none
  | some s ↦ stub_found level s
]

-- `config` is GetGlobalConfig, `level` that of the logger, `inet` whether inet_addr takes a text.
unfoldable pub find_addr :
    (List ℕ → Bool) → LogLevel → Option Config → List ℕ → Outcome (Option IpNetAddr)
unfolding check_valid new_addr search_stubs
find_addr inet level config str = check_valid inet str >>= λ valid. elim valid [
  | true ↦ new_addr str >>= λ a. ok (some a)
  | false ↦ elim config [ none ↦ fault null_pointer | some c ↦ search_stubs level c str ]
]

-- The text of an address is found to be that address, whatever the configuration says, if inet_addr
-- takes the ip, which has no colon and is not empty, and the port is one.
pub find_addr-to_string :
    (inet : List ℕ → Bool) (level : LogLevel) (config : Option Config) (a : IpNetAddr)
    → NoColon a.ip
    → is_nil a.ip ≡ false
    → a.port < 2 ^ 16
    → inet a.ip ≡ true
    → find_addr inet level config (to_string a) ≡ ok (some a)
unfolding find_addr
find_addr-to_string inet level config a n e p v =
    rw (find_addr, check_valid-to_string inet a n e p, v, new_addr-to_string a n p)

module _ {Node : Type 0} (xml : Xml Node) (inet : List ℕ → Bool) (level : LogLevel) where
  -- The element `n` is the first of the document's to have that name, and these are its texts.
  pub record FirstNamed (pre : List Node) (n : Node) (name ip p : List ℕ) : Type 0 where
    pub before : List (List ℕ × RpcStub)
    pub read : read_stubs xml inet pre [] ≡ ok before
    pub new : find_stub name before ≡ none
    pub named : stub_text xml name_node n ≡ ok name
    pub ip_text : stub_text xml ip_node n ≡ ok ip
    pub port_text : stub_text xml port_node n ≡ ok p

  -- The stub that the element has, whatever follows it.
  first_stub :
      (pre post : List Node) (n : Node) (name ip p : List ℕ) (c : Config)
      → FirstNamed pre n name ip p
      → read_stubs xml inet (pre ++ (n ∷ post)) [] ≡ ok c.rpc_stubs
      → (s : RpcStub) × (find_stub name c.rpc_stubs ≡ some s) × IsReadFrom xml inet n s
  unfolding read_stubs
  first_stub pre post n name ip p c f h =
      let k : read_stubs xml inet (n ∷ post) f.before ≡ ok c.rpc_stubs =
        ap (λ o. o >>= λ m. read_stubs xml inet (n ∷ post) m) (sym f.read)
        ∙ sym (read_stubs-append xml inet pre (n ∷ post) [])
        ∙ h in
      let (s, q, rest) = >>=-eq-ok (read_stub xml inet n) _ k in
      let r = read_stub-IsReadFrom xml inet n q in
      let same : s.name ≡ name = ok-injective (sym r.named ∙ f.named) in
      let found : find_stub name (insert_stub s f.before) ≡ some s =
        find_stub-insert_stub name s f.before ∙ rw (f.new, same, str_eq_refl name, or_else) in
      (s, read_stubs-find_stub xml inet post (insert_stub s f.before) name s rest found, r)

  stub_addr-texts :
      (n : Node) (s : RpcStub) (ip p : List ℕ) (port : ℤ) (valid : Bool)
      → IsReadFrom xml inet n s
      → stub_text xml ip_node n ≡ ok ip
      → stub_text xml port_node n ≡ ok p
      → stoi p ≡ ok port
      → check_valid inet (ip ++ (b':' ∷ int_to_string port)) ≡ ok valid
      → s.addr ≡ addr_for valid ip port
  stub_addr-texts n s ip p port valid r i q t v =
      let (ip', p', port', valid', i', q', t', v', e) = r.addressed in
      let same_ip : ip' ≡ ip = ok-injective (sym i' ∙ i) in
      let same_p : p' ≡ p = ok-injective (sym q' ∙ q) in
      let same_port : port' ≡ port = ok-injective (sym t' ∙ ap stoi same_p ∙ t) in
      let same : valid' ≡ valid = ok-injective (
        sym v'
        ∙ ap (λ x. check_valid inet (x ++ (b':' ∷ int_to_string port'))) same_ip
        ∙ ap (λ x. check_valid inet (ip ++ (b':' ∷ int_to_string x))) same_port
        ∙ v) in
      e
      ∙ ap (λ x. addr_for x ip' port') same
      ∙ ap (λ x. addr_for valid x port') same_ip
      ∙ ap (λ x. addr_for valid ip x) same_port

  stub_found-addr_for :
      (s : RpcStub) (ip : List ℕ) (port : ℤ) (valid : Bool)
      → s.addr ≡ addr_for valid ip port
      → stub_found level s ≡ (
          if valid
          then ok (some (record { ip = ip; port = to_port port }))
          else if is_logged infolog level
          then fault null_pointer
          else ok none)
  unfolding stub_found
  stub_found-addr_for s ip port true e = simp (stub_found, e)
  stub_found-addr_for s ip port false e = simp (stub_found, e)

  -- A name that is not itself an address is looked up in the document that has been read: the first
  -- rpc_server element of that name decides, whatever elements follow. If CheckValid accepts its ip
  -- and port, the address is these; if not, the lookup is a call on a null pointer while the level
  -- lets INFOLOG write, and finds no address at another level.
  pub find_addr-named :
      (pre post : List Node) (n : Node) (name ip p : List ℕ) (port : ℤ) (valid : Bool) (c : Config)
      → FirstNamed pre n name ip p
      → read_stubs xml inet (pre ++ (n ∷ post)) [] ≡ ok c.rpc_stubs
      → stoi p ≡ ok port
      → check_valid inet (ip ++ (b':' ∷ int_to_string port)) ≡ ok valid
      → check_valid inet name ≡ ok false
      → find_addr inet level (some c) name ≡ (
          if valid
          then ok (some (record { ip = ip; port = to_port port }))
          else if is_logged infolog level
          then fault null_pointer
          else ok none)
  unfolding find_addr search_stubs
  find_addr-named pre post n name ip p port valid c f h t v not_addr =
      let (s, found, r) = first_stub pre post n name ip p c f h in
      simp (find_addr, not_addr, search_stubs, found)
        (stub_found-addr_for s ip port valid
          (stub_addr-texts n s ip p port valid r f.ip_text f.port_text t v))
