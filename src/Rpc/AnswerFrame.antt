-- ===== src/Rpc/AnswerFrame.antt =====
-- The message that answers a request, as the dispatcher makes it up.
use rpc4grad.Prelude.{ℕ, ◌≡◌, ◌≢◌, refl, ap, some, List, [], ◌∷◌, length}
use rpc4grad.Coder.Protocol.{TinyPb, new_message, set_method_name, set_err_info}
use rpc4grad.Coder.Encode.{or_default, with_msg_id}
use rpc4grad.Coder.Parse.{received}
use rpc4grad.Coder.Stream.{arrived}
use rpc4grad.Rpc.Dispatcher.{ErrorTexts, filled_response}
use rpc4grad.Rpc.Answers.{addressed}

-- The answer to a request: its id and method name, and the body that the method gives.
abbrev pub answer : TinyPb → List ℕ → TinyPb
answer m body = record new_message {
  msg_id = m.msg_id;
  method_name_len = length m.method_name;
  method_name = m.method_name;
  pb_body = body;
}

or_default-full : (id : List ℕ) → id ≢ [] → or_default id ≡ id
or_default-full [] n = absurd (n refl)
or_default-full (c ∷ cs) n = refl

pub filled_response-answer :
    (texts : ErrorTexts) (m : TinyPb) (body : List ℕ)
    → filled_response texts (some body) (addressed (arrived m) new_message) ≡ answer m body
unfolding filled_response set_err_info set_method_name received
filled_response-answer texts m body = refl

pub with_msg_id-answer :
    (m : TinyPb) (body : List ℕ) → m.msg_id ≢ [] → with_msg_id (answer m body) ≡ answer m body
unfolding with_msg_id
with_msg_id-answer m body n =
    ap (λ id. record (answer m body) { msg_id = id }) (or_default-full m.msg_id n)

-- What a client that receives the answer finds in it.
pub arrived-answer :
    (m : TinyPb) (body : List ℕ)
    → ((arrived (answer m body)).msg_id ≡ m.msg_id)
      × ((arrived (answer m body)).method_name ≡ m.method_name)
      × ((arrived (answer m body)).err_code ≡ 0)
      × ((arrived (answer m body)).pb_body ≡ body)
unfolding received
arrived-answer m body = (refl, refl, refl, refl)
