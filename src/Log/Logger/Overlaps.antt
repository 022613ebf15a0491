-- ===== src/Log/Logger/Overlaps.antt =====
-- Logger: syncLoop and flush as runs of their steps, and a flush between two steps of a syncLoop.
use rpc4grad.Prelude.{
  ◌≡◌, sym, ap, ◌∙◌, subst, Option, [], ◌∷◌, ◌++◌, append-nil, append_assoc, ok, >>=-eq-ok,
  ok-injective,
}
use rpc4grad.Log.Writer.{Text, AsyncLogger}
use rpc4grad.Log.Writer.Fifo.{non_empty}
use rpc4grad.Log.Logger.{Logger, push_log, hand_over, sync_loop, stop_logger, flush}
use rpc4grad.Log.Logger.Streams.{line_stream, line_stream-append, hand_over-stream}
use rpc4grad.Log.Logger.Steps.{
  IsAsync, idle, rpc_queue, swaps, hands, app_swaps, app_hands, stops, app_stops, LoggerSteps, here,
  next, push_log-Queued, LoggerSteps-Queued,
}

-- syncLoop with nothing between its locks.
pub sync_loop-LoggerSteps :
    (l : Logger) {l' : Logger} → sync_loop l ≡ ok l' → LoggerSteps (l, idle) [] [] (l', idle)
unfolding sync_loop
sync_loop-LoggerSteps l h =
    let (w, q, h1) = >>=-eq-ok (hand_over l.buffers l.async_logger) _ h in
    let (v, r, last) = >>=-eq-ok (hand_over l.app_buffers l.async_app_logger) _ h1 in
    subst (λ m. LoggerSteps (l, idle) [] [] (m, idle)) (ok-injective last)
      (next (next (next (next here swaps) (hands q)) app_swaps) (app_hands r))

-- flush with nothing between its locks, after which nothing is gathered.
pub flush-LoggerSteps :
    (l : Logger) {l' : Logger}
    → flush l ≡ ok l'
    → LoggerSteps (l, idle) [] [] (l', idle) × (l'.buffers ≡ [])
unfolding flush sync_loop
flush-LoggerSteps l h =
    let (m, q, h1) = >>=-eq-ok (sync_loop l) _ h in
    let (w, r, h2) = >>=-eq-ok (stop_logger m.async_logger) _ h1 in
    let (v, t, last) = >>=-eq-ok (stop_logger m.async_app_logger) _ h2 in
    let (w', q', g1) = >>=-eq-ok (hand_over l.buffers l.async_logger) _ q in
    let (v', r', g2) = >>=-eq-ok (hand_over l.app_buffers l.async_app_logger) _ g1 in
    (
      subst (λ m. LoggerSteps (l, idle) [] [] (m, idle)) (ok-injective last)
          (next (next (sync_loop-LoggerSteps l q) (stops r)) (app_stops t)),
      ap (λ (n : Logger). n.buffers) (sym (ok-injective last))
          ∙ ap (λ (n : Logger). n.buffers) (sym (ok-injective g2)),
    )

-- A flush that runs between the swap and the push of a syncLoop, as the signal handler can, lets a
-- line that is logged there overtake those that syncLoop holds: the thread gets the held ones
-- behind it.
pub flush-overtakes :
    (l : Logger) (s : Text) {l' : Logger} {w : Option AsyncLogger}
    → IsAsync l
    → flush (push_log s (record l { buffers = [] })) ≡ ok l'
    → hand_over l.buffers l'.async_logger ≡ ok w
    → line_stream w l'.buffers
      ≡ line_stream l.async_logger [] ++ (non_empty (s ∷ []) ++ non_empty l.buffers)
unfolding non_empty
flush-overtakes l s {l'} {w} a h k =
    let l1 : Logger = record l { buffers = [] } in
    let v : IsAsync l1 = record { typed = a.typed; rpc = a.rpc; app = a.app } in
    let p = push_log-Queued s l1 idle v in
    let (steps, clear) = flush-LoggerSteps (push_log s l1) h in
    let q = LoggerSteps-Queued (push_log s l1, idle) p.async steps in
    let front : line_stream l'.async_logger []
        ≡ line_stream l.async_logger [] ++ non_empty (s ∷ []) =
      ap (line_stream l'.async_logger) (sym clear)
      ∙ q.rpc
      ∙ append-nil (rpc_queue (push_log s l1, idle))
      ∙ p.rpc in
    ap (line_stream w) clear
    ∙ hand_over-stream l.buffers l'.async_logger k
    ∙ line_stream-append l'.async_logger [] l.buffers
    ∙ ap (λ r. r ++ non_empty l.buffers) front
    ∙ append_assoc (line_stream l.async_logger []) (non_empty (s ∷ [])) (non_empty l.buffers)
