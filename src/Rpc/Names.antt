-- ===== src/Rpc/Names.antt =====
-- RpcDispatcher: full method names and the table of services.
use rpc4grad.Prelude.{
  ℕ, suc, ◌+◌, ◌≡◌, ◌≢◌, refl, sym, ◌∙◌, ap, ap₂, subst, Bool, true, false, Bool-cases, ==_iff,
  Option-cases, inl, inr, none, some, List, [], ◌∷◌, ◌++◌, length, take, drop, ◌==◌, if◌then◌else◌,
  arith, take-append,
}
use rpc4grad.MsgId.{str_eq}
use rpc4grad.Connection.Callbacks.{str_eq_refl, str_eq-eq}
use rpc4grad.Rpc.Dispatcher.{
  Service, find_last_dot, parse_service_full_name, register_service, find_service,
}

-- A name with no dot in it.
abbrev NoDot : List ℕ → Type 0
NoDot [] = Unit {0}
NoDot (c ∷ cs) = (c ≢ b'.') × NoDot cs

find_last_dot-NoDot : (m : List ℕ) → NoDot m → find_last_dot m ≡ none
unfolding find_last_dot
find_last_dot-NoDot [] n = refl
find_last_dot-NoDot (c ∷ cs) n = ground (arith, find_last_dot-NoDot cs n.1)

find_last_dot-append : (s m : List ℕ) → NoDot m → find_last_dot (s ++ (b'.' ∷ m)) ≡ some (length s)
unfolding find_last_dot
find_last_dot-append [] m n = rw (find_last_dot-NoDot m n)
find_last_dot-append (c ∷ cs) m n = rw (find_last_dot-append cs m n)

drop-append_suc : (xs ys : List ℕ) (y : ℕ) → drop (suc (length xs)) (xs ++ (y ∷ ys)) ≡ ys
drop-append_suc [] ys y = refl
drop-append_suc (x ∷ xs) ys y = drop-append_suc xs ys y

drop-append_cons : (xs ys : List ℕ) (y : ℕ) → drop (length xs + 1) (xs ++ (y ∷ ys)) ≡ ys
drop-append_cons xs ys y =
    let next : length xs + 1 ≡ suc (length xs) = omega arith in
    ap (λ n. drop n (xs ++ (y ∷ ys))) next ∙ drop-append_suc xs ys y

found :
    {c i : ℕ} (t : Bool)
    → (if t then some 0 else none) ≡ some i
    → (t ≡ true → c ≡ b'.')
    → (c ≡ b'.') × (0 ≡ i)
found true h k = (k refl, ground arith)
found false h k = cc

find_last_dot-splits :
    (cs : List ℕ) (i : ℕ) → find_last_dot cs ≡ some i → cs ≡ take i cs ++ (b'.' ∷ drop (suc i) cs)
unfolding find_last_dot
find_last_dot-splits [] i h = cc
find_last_dot-splits (c ∷ cs) i h = elim (Option-cases (find_last_dot cs)) [
  | inr (j, e) ↦
      let z = rw (e, find_last_dot) at h in
      let j_suc : suc j ≡ i = ground arith in
      subst (λ k. c ∷ cs ≡ take k (c ∷ cs) ++ (b'.' ∷ drop (suc k) (c ∷ cs))) j_suc
        (ap (λ t. c ∷ t) (find_last_dot-splits cs j e))
  | inl e ↦
      let z = rw (e, find_last_dot) at h in
      let (dot, first) = found {c = c} {i = i} (c == b'.') z (==_iff c b'.').0 in
      subst (λ k. c ∷ cs ≡ take k (c ∷ cs) ++ (b'.' ∷ drop (suc k) (c ∷ cs))) first
        (ap (λ d. d ∷ cs) dot)
]

-- A full name made of a service's name and a method's name with no dot is taken apart into the
-- two, also where the service's name has dots.
pub parse_service_full_name-join :
    (s m : List ℕ) → NoDot m → parse_service_full_name (s ++ (b'.' ∷ m)) ≡ some (s, m)
unfolding parse_service_full_name
parse_service_full_name-join [] m n = rw (find_last_dot-append [] m n, parse_service_full_name)
parse_service_full_name-join (c ∷ cs) m n =
    rw (find_last_dot-append (c ∷ cs) m n, parse_service_full_name)
      (ap₂ (λ s d. some (c ∷ s, d)) (take-append cs (b'.' ∷ m)) (drop-append_cons (c ∷ cs) m b'.'))

-- A pair of names comes only from their join.
parse_service_full_name-splits :
    (full s m : List ℕ) → parse_service_full_name full ≡ some (s, m) → full ≡ s ++ (b'.' ∷ m)
unfolding parse_service_full_name
parse_service_full_name-splits [] s m h = cc
parse_service_full_name-splits (c ∷ cs) s m h = elim (Option-cases (find_last_dot (c ∷ cs))) [
  | inl e ↦ let z = rw (e, parse_service_full_name) at h in cc
  | inr (i, e) ↦
      let z = rw (e, parse_service_full_name) at h in
      let before : take i (c ∷ cs) ≡ s = ground arith in
      let after : drop (i + 1) (c ∷ cs) ≡ m = ground arith in
      let next : suc i ≡ i + 1 = omega arith in
      find_last_dot-splits (c ∷ cs) i e
      ∙ ap₂ (λ t d. t ++ (b'.' ∷ d)) before (ap (λ k. drop k (c ∷ cs)) next ∙ after)
]

module _ {Req Rsp : Type 0} where
  -- The service that was registered last under a name is the one that is found.
  pub find_service-register_service :
      (s : Service Req Rsp) (table : List (List ℕ × Service Req Rsp))
      → find_service s.full_name (register_service s table) ≡ some s
  unfolding find_service register_service
  find_service-register_service s [] = rw (str_eq_refl s.full_name)
  find_service-register_service s ((k, t) ∷ rest) = elim (Bool-cases (str_eq k s.full_name)) [
    | inl e ↦ rw (e, find_service, e)
    | inr e ↦ rw (e, find_service, e) (find_service-register_service s rest)
  ]

  -- Registering a service changes nothing under another name.
  find_service-register_service_other :
      (s : Service Req Rsp) (name : List ℕ) (table : List (List ℕ × Service Req Rsp))
      → str_eq s.full_name name ≡ false
      → find_service name (register_service s table) ≡ find_service name table
  unfolding find_service register_service
  find_service-register_service_other s name [] h = rw h
  find_service-register_service_other s name ((k, t) ∷ rest) h =
      elim (Bool-cases (str_eq k s.full_name)) [
        | inl e ↦
            let same : k ≡ s.full_name = str_eq-eq k s.full_name e in
            let other = subst (λ l. str_eq l name ≡ false) (sym same) h in
            rw (e, find_service, other)
        | inr e ↦ elim (Bool-cases (str_eq k name)) [
          | inl q ↦ rw (e, find_service, q)
          | inr q ↦ rw (e, find_service, q) (find_service-register_service_other s name rest h)
        ]
      ]
