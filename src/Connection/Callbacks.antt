-- ===== src/Connection/Callbacks.antt =====
-- TcpConnection::execute on a client: the callbacks that wait for an answer.
use rpc4grad.Prelude.{
  ℕ, ◌≡◌, refl, ◌∙◌, ap, true, Option-cases, inl, inr, none, some, List, [], ◌∷◌, ◌++◌, arith,
}
use rpc4grad.Coder.Protocol.{TinyPb}
use rpc4grad.MsgId.{str_eq}
use rpc4grad.Connection.{TcpConnection, find_done, erase_done, deliver, push_read_message}

pub str_eq_refl : (s : List ℕ) → str_eq s s ≡ true
unfolding str_eq
str_eq_refl [] = refl
str_eq_refl (c ∷ cs) = ground (arith, str_eq_refl cs)

pub str_eq-eq : (s t : List ℕ) → str_eq s t ≡ true → s ≡ t
unfolding str_eq
str_eq-eq [] [] h = refl
str_eq-eq [] (d ∷ ds) h = cc
str_eq-eq (c ∷ cs) [] h = cc
str_eq-eq (c ∷ cs) (d ∷ ds) h = ground (arith, str_eq-eq cs ds)

module _ {A : Type 0} where
  find_done-erase_done :
      (id : List ℕ) (ds : List (List ℕ × A)) → find_done id (erase_done id ds) ≡ none
  unfolding find_done erase_done
  find_done-erase_done id [] = refl
  find_done-erase_done id ((k, f) ∷ rest) = ground (arith, find_done-erase_done id rest)

  find_done-push :
      (id : List ℕ) (f : A) (ds : List (List ℕ × A))
      → find_done id ds ≡ none
      → (find_done id (ds ++ ((id, f) ∷ [])) ≡ some f) × (erase_done id (ds ++ ((id, f) ∷ [])) ≡ ds)
  unfolding find_done erase_done
  find_done-push id f [] h = rw (str_eq_refl id) (refl, refl)
  find_done-push id f ((k, g) ∷ rest) h = ground (arith, find_done-push id f rest)

  deliver-missing :
      (m : TinyPb) (c : TcpConnection A) → find_done m.msg_id c.read_done ≡ none → deliver m c ≡ c
  unfolding deliver
  deliver-missing m c h = rw (h, deliver)

  pub deliver-found :
      (m : TinyPb) (c : TcpConnection A) (f : A)
      → find_done m.msg_id c.read_done ≡ some f
      → deliver m c ≡ record c {
        called = c.called ++ ((f, m) ∷ []);
        read_done = erase_done m.msg_id c.read_done;
      }
  unfolding deliver
  deliver-found m c f h = rw (h, deliver)

  -- Of two answers with one id only the first is given to a callback, and the second changes
  -- nothing.
  pub deliver-deliver :
      (m m' : TinyPb) (c : TcpConnection A)
      → m'.msg_id ≡ m.msg_id
      → deliver m' (deliver m c) ≡ deliver m c
  deliver-deliver m m' c e = elim (Option-cases (find_done m.msg_id c.read_done)) [
    | inl z ↦
        let q = deliver-missing m c z in
        rw q (deliver-missing m' c (ap (λ i. find_done i c.read_done) e ∙ z))
    | inr (f, z) ↦
        let q = deliver-found m c f z in
        rw q (
          deliver-missing m' _ (
            ap (λ i. find_done i (erase_done m.msg_id c.read_done)) e
            ∙ find_done-erase_done m.msg_id c.read_done))
  ]

  -- A callback that waits for an id that no other waits for is called once with the answer of
  -- that id, and the callbacks that waited before it are those that wait afterwards.
  pub deliver-push_read_message :
      (m : TinyPb) (f : A) (c : TcpConnection A)
      → find_done m.msg_id c.read_done ≡ none
      → deliver m (push_read_message m.msg_id f c) ≡ record c { called = c.called ++ ((f, m) ∷ []) }
  unfolding push_read_message
  deliver-push_read_message m f c h =
      let (p, q) = find_done-push m.msg_id f c.read_done h in
      rw (h, push_read_message)
        (deliver-found m (record c { read_done = c.read_done ++ ((m.msg_id, f) ∷ []) }) f p
          ∙ ap (λ r. record c { called = c.called ++ ((f, m) ∷ []); read_done = r }) q)
