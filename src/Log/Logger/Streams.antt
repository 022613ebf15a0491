-- ===== src/Log/Logger/Streams.antt =====
-- Logger: the lines of the framework and those of the application as two queues.
use rpc4grad.Prelude.{
  ◌≡◌, refl, sym, ap, ◌∙◌, subst, Option, none, some, List, [], ◌∷◌, ◌++◌, append-nil, append_assoc,
  ok, ok-ne-fault, ok-injective,
}
use rpc4grad.Log.Writer.{Text, AsyncLogger, push_log_buffer}
use rpc4grad.Log.Writer.Fifo.{non_empty, non_empty-append, stream, push_log_buffer-stream}
use rpc4grad.Log.Logger.{Logger, hand_over}

-- The lines that a thread has written and has still to write, and behind them those that the
-- logger has gathered.
unfoldable pub line_stream : Option AsyncLogger → List Text → List Text
line_stream none gathered = non_empty gathered
line_stream (some a) gathered = stream a ++ non_empty gathered

abbrev pub rpc_stream : Logger → List Text
rpc_stream l = line_stream l.async_logger l.buffers

abbrev pub app_stream : Logger → List Text
app_stream l = line_stream l.async_app_logger l.app_buffers

pub line_stream-append :
    (w : Option AsyncLogger) (ss ts : List Text)
    → line_stream w (ss ++ ts) ≡ line_stream w ss ++ non_empty ts
unfolding line_stream
line_stream-append none ss ts = non_empty-append ss ts
line_stream-append (some a) ss ts =
    ap (λ r. stream a ++ r) (non_empty-append ss ts)
    ∙ sym (append_assoc (stream a) (non_empty ss) (non_empty ts))

pub hand_over-stream :
    (ss : List Text) (w : Option AsyncLogger) {w' : Option AsyncLogger}
    → hand_over ss w ≡ ok w'
    → line_stream w' [] ≡ line_stream w ss
unfolding hand_over line_stream non_empty
hand_over-stream [] w h = subst (λ v. line_stream v [] ≡ line_stream w []) (ok-injective h) refl
hand_over-stream (s ∷ ss) none h = absurd (ok-ne-fault (sym h))
hand_over-stream (s ∷ ss) (some a) h =
    subst (λ v. line_stream v [] ≡ line_stream (some a) (s ∷ ss)) (ok-injective h)
      (append-nil (stream (push_log_buffer (s ∷ ss) a)) ∙ push_log_buffer-stream (s ∷ ss) a)
