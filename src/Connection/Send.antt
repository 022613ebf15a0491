-- ===== src/Connection/Send.antt =====
-- TcpConnection::reply and onWrite: what goes out to the peer.
use rpc4grad.Prelude.{
  ℕ, ◌≤◌, ◌<◌, ◌≡◌, refl, sym, ◌∙◌, ap, ap₂, subst, Outcome-cases, length-append, true, false, inl,
  inr, Option, none, some, List, [], ◌∷◌, ◌++◌, append_assoc, append-nil, length, take, ◌==◌,
  leb-false, le→leb, arith, Outcome, ok, fault,
}
use rpc4grad.Buffer.{TcpBuffer, IsValid, read_able, contents}
use rpc4grad.Coder.Protocol.{TinyPb}
use rpc4grad.Coder.Encode.{encode, frame, with_msg_id}
use rpc4grad.Buffer.Contents.{length-contents}
use rpc4grad.Coder.Frames.{length-frame}
use rpc4grad.Coder.Stream.{encode-appends}
use rpc4grad.Event.Fd.{cancle}
use rpc4grad.Connection.{
  TcpConnection, connected, by_server, wrote, write_loop, reply, listen_write, on_write,
  encode_pending, after_write, is_connected, is_server,
}

-- A write(2) that takes all that is offered to it.
pub write_loop-full :
    (n : ℕ) (b : TcpBuffer) (sent : List ℕ)
    → 0 < read_able b
    → read_able b ≤ n
    → write_loop (wrote n ∷ []) b sent ≡ some (true, sent ++ contents b)
unfolding write_loop
write_loop-full n b sent h k =
    let some_bytes : (read_able b == 0) ≡ false = ground arith in
    rw (some_bytes, le→leb (read_able b) n k, write_loop)

-- Where a first write(2) takes a part and a second one all that it is offered, the part goes out
-- twice: the loop offers everything again.
pub write_loop-part :
    (n k : ℕ) (b : TcpBuffer) (sent : List ℕ)
    → n < read_able b
    → read_able b ≤ k
    → write_loop (wrote n ∷ wrote k ∷ []) b sent
      ≡ some (true, sent ++ (take n (contents b) ++ contents b))
unfolding write_loop
write_loop-part n k b sent h p =
    let some_bytes : (read_able b == 0) ≡ false = ground arith in
    rw (some_bytes, leb-false (read_able b) n h, write_loop)
      (write_loop-full k b (sent ++ take n (contents b)) (omega arith) p
        ∙ ap (λ t. some (true, t)) (append_assoc sent (take n (contents b)) (contents b)))

pub frame-read_able :
    (m : TinyPb) (b : TcpBuffer) {b' : TcpBuffer}
    → IsValid b'
    → contents b' ≡ contents b ++ frame m
    → 0 < read_able b'
frame-read_able m b v e = omega (
  arith,
  length-contents v,
  ap (λ t. length t) e,
  length-append (contents b) (frame m),
  length-frame m,
)

-- Each answer with all that waits before it.
abbrev pub resent : List ℕ → List TinyPb → List ℕ
resent waiting [] = []
resent waiting (m ∷ ms) =
    (waiting ++ frame (with_msg_id m)) ++ resent (waiting ++ frame (with_msg_id m)) ms

module _ {A : Type 0} where
  -- A server's connection that can do io, over a valid out buffer.
  pub record IsServing (c : TcpConnection A) : Type 0 where
    pub connected_state : c.state ≡ connected
    pub server : c.connection_type ≡ by_server
    pub valid_out : IsValid c.out_buffer

  -- What reply does to the out buffer and to the rest.
  pub reply-appends :
      (tid : ℕ) (m : TinyPb) (c c' : TcpConnection A)
      → IsServing c
      → reply tid (m ∷ []) c ≡ ok c'
      → (contents c'.out_buffer ≡ contents c.out_buffer ++ frame (with_msg_id m))
        × (c'.sent ≡ c.sent)
        × IsServing c'
  unfolding reply listen_write
  reply-appends tid m c c' s h = go (encode (m ∷ []) c.out_buffer) refl
    where
      go :
          (r : Outcome (List TinyPb × TcpBuffer))
          → encode (m ∷ []) c.out_buffer ≡ r
          → (contents c'.out_buffer ≡ contents c.out_buffer ++ frame (with_msg_id m))
            × (c'.sent ≡ c.sent)
            × IsServing c'
      go (fault e) q = let z = rw (q, reply) at h in cc
      go (ok (ms, b)) q =
          let z = rw (q, reply) at h in
          let (k, v) = encode-appends (m ∷ []) s.valid_out q in
          let o : b ≡ c'.out_buffer = ground arith in
          (
            ap contents (sym o)
                ∙ k
                ∙ ap (λ t. contents c.out_buffer ++ t) (append-nil (frame (with_msg_id m))),
            ground arith,
            record {
              connected_state = ground arith;
              server = ground arith;
              valid_out = subst IsValid o v;
            },
          )

  encode_pending-server :
      (c : TcpConnection A)
      → c.connection_type ≡ by_server
      → encode_pending c ≡ ok ([], c.out_buffer)
  unfolding encode_pending
  encode_pending-server c e = let z : is_server c ≡ true = ground arith in rw z

  -- A write(2) that takes all that waits: everything is sent, and everything still waits.
  pub on_write-keeps :
      (tid n : ℕ) (c : TcpConnection A)
      → IsServing c
      → 0 < read_able c.out_buffer
      → read_able c.out_buffer ≤ n
      → (c' : TcpConnection A) × (on_write tid (wrote n ∷ []) c ≡ some (ok c'))
        × (c'.sent ≡ c.sent ++ contents c.out_buffer)
        × (c'.out_buffer ≡ c.out_buffer)
        × (c'.fd_event.events.epollout ≡ false)
        × IsServing c'
  unfolding on_write after_write cancle
  on_write-keeps tid n c s h k =
      let up : is_connected c.state ≡ true = ap is_connected s.connected_state in
      (
        after_write tid [] (true, c.sent ++ contents c.out_buffer) c,
        rw (
          up,
          encode_pending-server c s.server,
          write_loop-full n c.out_buffer c.sent h k,
          on_write,
        ),
        refl,
        refl,
        refl,
        record { connected_state = s.connected_state; server = s.server; valid_out = s.valid_out },
      )

  -- A server that answers the messages one after the other, each answer taken whole by write(2).
  unfoldable pub serve : ℕ → List TinyPb → TcpConnection A → Option (Outcome (TcpConnection A))
  serve tid [] c = some (ok c)
  serve tid (m ∷ ms) c = elim (reply tid (m ∷ []) c) [
    | fault e ↦ some (fault e)
    | ok c' ↦ elim (on_write tid (wrote (read_able c'.out_buffer) ∷ []) c') [
      | none ↦ none
      | some (fault e) ↦ some (fault e)
      | some (ok d) ↦ serve tid ms d
    ]
  ]

  -- On a connected server, where write(2) takes all that it is offered for each answer, each one
  -- goes out together with all the answers before it: nothing takes the bytes that were sent out
  -- of the out buffer.
  pub serve-resends :
      (tid : ℕ) (ms : List TinyPb) (c c' : TcpConnection A)
      → IsServing c
      → serve tid ms c ≡ some (ok c')
      → c'.sent ≡ c.sent ++ resent (contents c.out_buffer) ms
  unfolding serve
  serve-resends tid [] c c' s h =
      let e : c ≡ c' = ground arith in
      subst (λ t. t.sent ≡ c.sent ++ []) e (sym (append-nil c.sent))
  serve-resends tid (m ∷ ms) c c' s h = elim (Outcome-cases (reply tid (m ∷ []) c)) [
    | inr (e, q) ↦ let z = rw (q, serve) at h in cc
    | inl (c1, q) ↦
        let (k, n, s1) = reply-appends tid m c c1 s q in
        let some_bytes = frame-read_able (with_msg_id m) c.out_buffer s1.valid_out k in
        let (c2, w, sent, out, _, s2) =
          on_write-keeps tid (read_able c1.out_buffer) c1 s1 some_bytes (omega arith) in
        let z = rw (q, w, serve) at h in
        serve-resends tid ms c2 c' s2 z
        ∙ ap₂ (λ t u. t ++ resent u ms) (sent ∙ ap₂ ◌++◌ n k) (ap contents out ∙ k)
        ∙ append_assoc c.sent (contents c.out_buffer ++ frame (with_msg_id m)) _
  ]
