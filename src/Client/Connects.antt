-- ===== src/Client/Connects.antt =====
-- TcpClient: what connect comes to, and what a message that is written becomes.
use rpc4grad.Prelude.{
  ℕ, ◌+◌, ◌<◌, ◌≡◌, ◌≢◌, refl, ◌∙◌, ap, arith, Bool, true, false, ◌⊎◌, inl, inr, List, [], ◌∷◌,
  ◌++◌, append-nil, some, ok,
}
use rpc4grad.Buffer.{TcpBuffer, IsValid, read_able, contents}
use rpc4grad.Coder.Protocol.{TinyPb}
use rpc4grad.Coder.Encode.{encode, frame, with_msg_id}
use rpc4grad.Coder.Stream.{encode-appends}
use rpc4grad.Connection.{
  TcpConnection, connected, by_client, wrote, set_state, push_send_message, listen_write, on_write,
  after_write, encode_pending, is_connected, is_server, messages_of, calls_of,
}
use rpc4grad.Connection.Send.{write_loop-full, frame-read_able}
use rpc4grad.Client.{
  ConnectResult, at_once, in_progress, is_connected_already, failed, TcpClient, ConnectTexts,
  succeed, fail, run_done, wait_for_connect, connect, finish_connect, on_connect, write_message,
}

module _ {A : Type 0} where
  -- A whole connect: `r` is what the call gives, and `later` what the handler's own call gives if
  -- the handler has to run.
  abbrev pub attempt :
      ConnectTexts → ℕ → Bool → ConnectResult → ConnectResult → TcpClient A → TcpClient A
  attempt texts tid named in_progress later c =
      on_connect texts tid true named later (connect texts tid true named in_progress c)
  attempt texts tid named r later c = connect texts tid true named r c

  -- How a client stands after connect: connected with no new error, or with an error and the state
  -- as before.
  abbrev pub Settled : TcpClient A → TcpClient A → Type 0
  Settled c d =
      ((d.connection.state ≡ connected) × (d.connect_error_code ≡ c.connect_error_code))
      ⊎ ((d.connect_error_code ≢ 0) × (d.connection.state ≡ c.connection.state))

  -- Whatever the system answers, at once or later, the callback of connect runs once, and the
  -- client is then connected or has an error code, never both.
  pub attempt-Settled :
      (texts : ConnectTexts) (tid : ℕ) (named : Bool) (r later : ConnectResult) (c : TcpClient A)
      → ((attempt texts tid named r later c).runs ≡ c.runs + 1)
        × Settled c (attempt texts tid named r later c)
  unfolding connect on_connect succeed fail run_done wait_for_connect finish_connect set_state
  attempt-Settled texts tid named at_once later c = (refl, inl (refl, refl))
  attempt-Settled texts tid named is_connected_already later c = (refl, inr (omega arith, refl))
  attempt-Settled texts tid named (failed e) later c = (refl, inr (omega arith, refl))
  attempt-Settled texts tid named in_progress at_once c = (refl, inl (refl, refl))
  attempt-Settled texts tid named in_progress is_connected_already c = (refl, inl (refl, refl))
  attempt-Settled texts tid named in_progress in_progress c = (refl, inr (omega arith, refl))
  attempt-Settled texts tid named in_progress (failed e) c = (refl, inr (omega arith, refl))

  -- A connected client with nothing to write.
  pub record IsIdle (c : TcpConnection A) : Type 0 where
    pub connected_state : c.state ≡ connected
    pub client : c.connection_type ≡ by_client
    pub valid_out : IsValid c.out_buffer
    pub nothing_waits : c.write_done ≡ []

  encode_pending-one :
      (m m' : TinyPb) (f : A) (c : TcpConnection A) (b : TcpBuffer)
      → c.connection_type ≡ by_client
      → c.write_done ≡ (m, f) ∷ []
      → encode (m ∷ []) c.out_buffer ≡ ok (m' ∷ [], b)
      → encode_pending c ≡ ok (m' ∷ [], b)
  unfolding encode_pending
  encode_pending-one m m' f c b t w h =
      let away : is_server c ≡ false = ground arith in
      rw away (ap (λ l. encode (messages_of l) c.out_buffer) w ∙ h)

  after_write-called :
      (tid : ℕ) (m m' : TinyPb) (f : A) (sent : List ℕ) (c : TcpConnection A)
      → c.connection_type ≡ by_client
      → c.write_done ≡ (m, f) ∷ []
      → (after_write tid (m' ∷ []) (true, sent) c).called ≡ c.called ++ ((f, m') ∷ [])
  unfolding after_write
  after_write-called tid m m' f sent c t w =
      let away : is_server c ≡ false = ground arith in
      rw away (ap (λ l. c.called ++ calls_of l (m' ∷ [])) w)

  on_write-takes :
      (tid : ℕ) (ms : List TinyPb) (c : TcpConnection A) (b : TcpBuffer)
      → is_connected c.state ≡ true
      → encode_pending c ≡ ok (ms, b)
      → 0 < read_able b
      → on_write tid (wrote (read_able b) ∷ []) c
        ≡ some (ok (after_write tid ms (true, c.sent ++ contents b) (record c { out_buffer = b })))
  unfolding on_write
  on_write-takes tid ms c b up e h =
      simp (on_write, up, e, write_loop-full (read_able b) b c.sent h (omega arith))

  -- A message that an idle client writes goes out as its frame behind what was in the out buffer,
  -- if write(2) takes all, and the callback is called once, with the message as it was encoded.
  pub write_message-sent :
      (tid : ℕ) (m m' : TinyPb) (f : A) (c : TcpClient A) (b : TcpBuffer)
      → IsIdle c.connection
      → encode (m ∷ []) c.connection.out_buffer ≡ ok (m' ∷ [], b)
      → (d : TcpConnection A) × (on_write tid
            (wrote (read_able b) ∷ [])
            (write_message tid m f c).connection
          ≡ some (ok d))
        × (d.sent
            ≡ c.connection.sent ++ (contents c.connection.out_buffer ++ frame (with_msg_id m)))
        × (d.called ≡ c.connection.called ++ ((f, m') ∷ []))
        × (d.write_done ≡ [])
  unfolding write_message push_send_message listen_write on_write encode_pending after_write
  write_message-sent tid m m' f c b i h =
      let w = (write_message tid m f c).connection in
      let up : is_connected w.state ≡ true = ap is_connected i.connected_state in
      let queue : w.write_done ≡ (m, f) ∷ [] = ap (λ l. l ++ ((m, f) ∷ [])) i.nothing_waits in
      let (e, v) = encode-appends (m ∷ []) i.valid_out h in
      let joined =
        e ∙ ap (λ t. contents c.connection.out_buffer ++ t) (append-nil (frame (with_msg_id m))) in
      let some_bytes = frame-read_able (with_msg_id m) c.connection.out_buffer v joined in
      let sent = c.connection.sent ++ contents b in
      let after : TcpConnection A = record w { out_buffer = b } in
      (
        after_write tid (m' ∷ []) (true, sent) after,
        on_write-takes tid (m' ∷ []) w b up (encode_pending-one m m' f w b i.client queue h)
            some_bytes,
        ap (λ t. c.connection.sent ++ t) joined,
        after_write-called tid m m' f sent after i.client queue,
        refl,
      )
