-- ===== src/Config/Stubs.antt =====
-- The stubs of the configuration: which address a name stands for.
use mathlib.Core.List.{Memᴰ}
use mathlib.Core.List.Memᴰ.{head, tail}
use rpc4grad.Prelude.{
  ℕ, ◌≡◌, refl, sym, ap, ◌∙◌, subst, Outcome-cases, Option-cases, ◌>>=◌, Bool, false, Bool-cases,
  Option, none, some, inl, inr, List, [], ◌∷◌, ◌++◌, if◌then◌else◌, ok, >>=-eq-ok, ok-injective,
}
use rpc4grad.Prelude.Int.{ℤ}
use rpc4grad.Prelude.Starts.{run_part-started, started, then-started, ◌then◌}
use rpc4grad.MsgId.{str_eq}
use rpc4grad.Connection.Callbacks.{str_eq-eq, str_eq_refl}
use rpc4grad.NetAddr.{IpNetAddr, stoi, to_port, check_valid}
use rpc4grad.Config.{
  Config, RpcStub, Xml, root_node, log_node, server_node, stubs_node, name_node, timeout_node,
  ip_node, port_node, find_stub, insert_stub, int_to_string, stub_addr, stub_text, read_stub,
  read_stubs, read_node, stubs_under, first, blank_config, load_log, load_server, load_stubs, load,
}

-- What is looked up after an insert: the entry that was there comes first.
abbrev pub or_else {ℓ} : {A : Type ℓ} → Option A → Option A → Option A
or_else none o = o
or_else (some a) o = some a

or_else-none {ℓ} : {A : Type ℓ} (o : Option A) → or_else o none ≡ o
or_else-none none = refl
or_else-none (some a) = refl

pub find_stub-insert_stub :
    (name : List ℕ) (s : RpcStub) (m : List (List ℕ × RpcStub))
    → find_stub name (insert_stub s m)
      ≡ or_else (find_stub name m) (if str_eq s.name name then some s else none)
unfolding find_stub insert_stub
find_stub-insert_stub name s [] = refl
find_stub-insert_stub name s ((k, t) ∷ m) = elim (Bool-cases (str_eq k s.name)) [
  | inl e ↦ elim (Bool-cases (str_eq k name)) [
    | inl q ↦ rw (e, find_stub, q)
    | inr q ↦
        let q' = subst (λ x. str_eq x name ≡ false) (str_eq-eq k s.name e) q in
        rw (e, find_stub, q, q') (sym (or_else-none (find_stub name m)))
  ]
  | inr e ↦ elim (Bool-cases (str_eq k name)) [
    | inl q ↦ rw (e, find_stub, q)
    | inr q ↦ rw (e, find_stub, q) (find_stub-insert_stub name s m)
  ]
]

-- What a stub's address is, for the ip and the port that stand in the file.
abbrev pub addr_for : Bool → List ℕ → ℤ → Option IpNetAddr
addr_for valid ip port = if valid then some (record { ip = ip; port = to_port port }) else none

module _ {Node : Type 0} (xml : Xml Node) (inet : List ℕ → Bool) where
  -- The stub that an element describes: the texts of its children, with an address if CheckValid
  -- accepts the ip and the port.
  pub record IsReadFrom (n : Node) (s : RpcStub) : Type 0 where
    pub named : stub_text xml name_node n ≡ ok s.name
    pub timed : (t : List ℕ) × (stub_text xml timeout_node n ≡ ok t) × (stoi t ≡ ok s.timeout)
    pub addressed :
        (ip : List ℕ) × (p : List ℕ) × (port : ℤ) × (valid : Bool) × (stub_text xml ip_node n
          ≡ ok ip)
        × (stub_text xml port_node n ≡ ok p)
        × (stoi p ≡ ok port)
        × (check_valid inet (ip ++ (b':' ∷ int_to_string port)) ≡ ok valid)
        × (s.addr ≡ addr_for valid ip port)

  -- An entry stands under its stub's name, and its stub is that of one of the elements.
  pub record IsFiled (ns : List Node) (e : List ℕ × RpcStub) : Type 0 where
    pub filed : e.0 ≡ e.1.name
    pub element : Node
    pub among : Memᴰ element ns
    pub read : IsReadFrom element e.1

  abbrev pub AllFiled : List Node → List (List ℕ × RpcStub) → Type 0
  AllFiled ns [] = Unit
  AllFiled ns (e ∷ m) = IsFiled ns e × AllFiled ns m

  insert_stub-AllFiled :
      (ns : List Node) (s : RpcStub) (m : List (List ℕ × RpcStub))
      → IsFiled ns (s.name, s)
      → AllFiled ns m
      → AllFiled ns (insert_stub s m)
  unfolding insert_stub
  insert_stub-AllFiled ns s [] h a = (h, tt)
  insert_stub-AllFiled ns s ((k, t) ∷ m) h a = elim (Bool-cases (str_eq k s.name)) [
    | inl e ↦ rw (e) a
    | inr e ↦ rw (e) (a.0, insert_stub-AllFiled ns s m h a.1)
  ]

  pub read_stub-IsReadFrom : (n : Node) {s : RpcStub} → read_stub xml inet n ≡ ok s → IsReadFrom n s
  unfolding read_stub stub_addr
  read_stub-IsReadFrom n h =
      let (name, q1, h1) = >>=-eq-ok (stub_text xml name_node n) _ h in
      let (t, q2, h2) = >>=-eq-ok (stub_text xml timeout_node n) _ h1 in
      let (timeout, q3, h3) = >>=-eq-ok (stoi t) _ h2 in
      let (ip, q4, h4) = >>=-eq-ok (stub_text xml ip_node n) _ h3 in
      let (p, q5, h5) = >>=-eq-ok (stub_text xml port_node n) _ h4 in
      let (port, q6, h6) = >>=-eq-ok (stoi p) _ h5 in
      let (addr, q7, h7) = >>=-eq-ok (stub_addr inet ip port) _ h6 in
      let (valid, q8, last) =
        >>=-eq-ok (check_valid inet (ip ++ (b':' ∷ int_to_string port))) _ q7 in
      subst (IsReadFrom n) (ok-injective h7) (record {
        named = q1;
        timed = (t, q2, q3);
        addressed = (ip, p, port, valid, q4, q5, q6, q8, sym (ok-injective last));
      })

  read_stubs-AllFiled :
      (all ns : List Node) (m : List (List ℕ × RpcStub)) {m' : List (List ℕ × RpcStub)}
      → ((n : Node) → Memᴰ n ns → Memᴰ n all)
      → AllFiled all m
      → read_stubs xml inet ns m ≡ ok m'
      → AllFiled all m'
  unfolding read_stubs
  read_stubs-AllFiled all [] m sub a h = subst (AllFiled all) (ok-injective h) a
  read_stubs-AllFiled all (n ∷ ns) m sub a h =
      let (s, q, rest) = >>=-eq-ok (read_stub xml inet n) _ h in
      let e : IsFiled all (s.name, s) = record {
        filed = refl;
        element = n;
        among = sub n (head refl);
        read = read_stub-IsReadFrom n q;
      } in
      read_stubs-AllFiled all ns (insert_stub s m) (λ k i. sub k (tail i))
        (insert_stub-AllFiled all s m e a) rest

  pub read_stubs-append :
      (pre ns : List Node) (m : List (List ℕ × RpcStub))
      → read_stubs xml inet (pre ++ ns) m
        ≡ (read_stubs xml inet pre m >>= λ k. read_stubs xml inet ns k)
  unfolding read_stubs
  read_stubs-append [] ns m = refl
  read_stubs-append (n ∷ pre) ns m = elim (Outcome-cases (read_stub xml inet n)) [
    | inl (s, e) ↦ rw (read_stubs, e) (read_stubs-append pre ns (insert_stub s m))
    | inr (f, e) ↦ rw (read_stubs, e)
  ]

  pub read_stubs-find_stub :
      (ns : List Node) (m : List (List ℕ × RpcStub)) {m' : List (List ℕ × RpcStub)} (name : List ℕ)
      (s : RpcStub)
      → read_stubs xml inet ns m ≡ ok m'
      → find_stub name m ≡ some s
      → find_stub name m' ≡ some s
  unfolding read_stubs
  read_stubs-find_stub [] m name s h f = subst (λ r. find_stub name r ≡ some s) (ok-injective h) f
  read_stubs-find_stub (n ∷ ns) m name s h f =
      let (t, q, rest) = >>=-eq-ok (read_stub xml inet n) _ h in
      read_stubs-find_stub ns (insert_stub t m) name s rest (
        find_stub-insert_stub name t m
        ∙ ap (λ o. or_else o (if str_eq t.name name then some t else none)) f)

  -- A look-up of the element's name finds a stub.
  pub record HasEntry (n : Node) (m : List (List ℕ × RpcStub)) : Type 0 where
    pub name : List ℕ
    pub named : stub_text xml name_node n ≡ ok name
    pub stub : RpcStub
    pub found : find_stub name m ≡ some stub

  abbrev pub AllFound : List Node → List (List ℕ × RpcStub) → Type 0
  AllFound [] m = Unit
  AllFound (n ∷ ns) m = HasEntry n m × AllFound ns m

  inserted :
      (s : RpcStub) (m : List (List ℕ × RpcStub))
      → (t : RpcStub) × (find_stub s.name (insert_stub s m) ≡ some t)
  inserted s m =
      let k = find_stub-insert_stub s.name s m in
      elim (Option-cases (find_stub s.name m)) [
        | inl e ↦ (s, k ∙ rw (e, str_eq_refl s.name, or_else))
        | inr (t, e) ↦ (t, k ∙ rw (e, or_else))
      ]

  read_stubs-AllFound :
      (ns : List Node) (m : List (List ℕ × RpcStub)) {m' : List (List ℕ × RpcStub)}
      → read_stubs xml inet ns m ≡ ok m'
      → AllFound ns m'
  unfolding read_stubs
  read_stubs-AllFound [] m h = tt
  read_stubs-AllFound (n ∷ ns) m h =
      let (s, q, rest) = >>=-eq-ok (read_stub xml inet n) _ h in
      let (t, e) = inserted s m in
      (
        record {
          name = s.name;
          named = (read_stub-IsReadFrom n q).named;
          stub = t;
          found = read_stubs-find_stub ns (insert_stub s m) s.name t rest e;
        },
        read_stubs-AllFound ns (insert_stub s m) rest,
      )

  load_stubs-AllFiled :
      (root : Node) (c : Config) {c' : Config}
      → load_stubs xml inet root c ≡ ok c'
      → let ns = stubs_under xml (first xml root stubs_node) in
        AllFiled ns c'.rpc_stubs × AllFound ns c'.rpc_stubs
  unfolding load_stubs
  load_stubs-AllFiled root c h =
      let ns = stubs_under xml (first xml root stubs_node) in
      let (stubs, q, last) = >>=-eq-ok (read_stubs xml inet ns []) _ h in
      subst (λ (r : Config). AllFiled ns r.rpc_stubs × AllFound ns r.rpc_stubs) (ok-injective last)
        (read_stubs-AllFiled ns ns [] (λ n i. i) tt q, read_stubs-AllFound ns [] q)

  -- A configuration that has been loaded has the stubs of the document and no other: a stub is found
  -- under the name of each rpc_server element of the document's stubs element, and each entry is
  -- that of such an element, filed under the text of its name, with the number of its timeout, and
  -- with the address of its ip and port if CheckValid accepts them, else with none.
  pub load-AllFiled :
      (d : Node) (c : Config)
      → load xml inet (some d) ≡ started c
      → (root : Node) × (read_node xml root_node d ≡ started root)
        × (let ns = stubs_under xml (first xml root stubs_node) in
            AllFiled ns c.rpc_stubs × AllFound ns c.rpc_stubs)
  unfolding load
  load-AllFiled d c h =
      let (root, q1, h1) = then-started (read_node xml root_node d) _ h in
      let (log, q2, h2) = then-started (read_node xml log_node root) _ h1 in
      let (server, q3, h3) = then-started (read_node xml server_node root) _ h2 in
      let (c1, q4, h4) = then-started (load_log xml log blank_config) _ h3 in
      let (c2, q5, h5) = then-started (load_server xml server c1) _ h4 in
      (root, q1, load_stubs-AllFiled root c2 (run_part-started (load_stubs xml inet root c2) h5))
