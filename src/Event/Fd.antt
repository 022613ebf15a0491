-- ===== src/Event/Fd.antt =====
-- rocket/rocket/net/fd_event.h and fd_event.cpp. A std::function is a value of any type, and
-- `none` is nullptr. The events mask is one flag for each bit that the code uses.
use rpc4grad.Prelude.{ℕ, ◌≡◌, Bool, true, false, Option, none, some, arith}

pub data TriggerEvent : Type 0 where
  in_event out_event error_event : TriggerEvent

pub record Events : Type 0 where
  pub epollin : Bool
  pub epollout : Bool
  pub epollerr : Bool

pub record FdEvent (A : Type 0) : Type 0 where
  pub fd : ℕ
  pub events : Events
  pub read_callback : Option A
  pub write_callback : Option A
  pub error_callback : Option A

abbrev no_events : Events
no_events = record { epollin = false; epollout = false; epollerr = false }

module _ {A : Type 0} where
  -- FdEvent(int fd)
  unfoldable pub new_event : ℕ → FdEvent A
  new_event fd = record {
    fd = fd;
    events = no_events;
    read_callback = none;
    write_callback = none;
    error_callback = none;
  }

  unfoldable pub handler : TriggerEvent → FdEvent A → Option A
  handler in_event e = e.read_callback
  handler out_event e = e.write_callback
  handler error_event e = e.error_callback

  -- The second half of listen: a second call with a handler in place takes it away again.
  unfoldable pub listen_error : Option A → FdEvent A → FdEvent A
  listen_error f e = elim e.error_callback [
    | none ↦ record e { events = record (e.events) { epollerr = true }; error_callback = f }
    | some g ↦ record e { error_callback = none }
  ]

  -- Every type but IN_EVENT is taken for OUT_EVENT.
  unfoldable pub listen_type : TriggerEvent → Option A → FdEvent A → FdEvent A
  listen_type in_event callback e = record e {
    events = record (e.events) { epollin = true };
    read_callback = callback;
  }
  listen_type _ callback e = record e {
    events = record (e.events) { epollout = true };
    write_callback = callback;
  }

  unfoldable pub listen : TriggerEvent → Option A → Option A → FdEvent A → FdEvent A
  unfolding listen_type listen_error
  listen t callback error_callback e = listen_error error_callback (listen_type t callback e)

  unfoldable pub cancle : TriggerEvent → FdEvent A → FdEvent A
  cancle in_event e = record e { events = record (e.events) { epollin = false } }
  cancle _ e = record e { events = record (e.events) { epollout = false } }

  -- After listen the event is waited for and its handler is the one given; the handler of the
  -- other direction and its bit stay. So it is for reading and for writing.
  listen-handler :
      (f g : Option A) (e : FdEvent A)
      → (handler in_event (listen in_event f g e) ≡ f)
        × ((listen in_event f g e).events.epollin ≡ true)
        × ((listen in_event f g e).events.epollout ≡ e.events.epollout)
        × (handler out_event (listen in_event f g e) ≡ handler out_event e)
        × (handler out_event (listen out_event f g e) ≡ f)
        × ((listen out_event f g e).events.epollout ≡ true)
        × ((listen out_event f g e).events.epollin ≡ e.events.epollin)
        × (handler in_event (listen out_event f g e) ≡ handler in_event e)
  unfolding listen handler
  listen-handler f g e = ground arith

  -- Two calls of listen that both give an error handler leave none: the second takes it away.
  pub listen-listen_error :
      (t u : TriggerEvent) (f h : Option A) (g k : A) (e : FdEvent A)
      → e.error_callback ≡ none
      → handler error_event (listen u h (some k) (listen t f (some g) e)) ≡ none
  unfolding listen handler
  listen-listen_error t u f h g k e z = ground arith

  -- cancle undoes the bit of listen and nothing else: the handlers stay.
  cancle-listen :
      (f g : Option A) (e : FdEvent A)
      → ((cancle out_event (listen out_event f g e)).events.epollout ≡ false)
        × ((cancle out_event (listen out_event f g e)).events.epollin ≡ e.events.epollin)
        × (handler out_event (cancle out_event (listen out_event f g e)) ≡ f)
        × (cancle error_event e ≡ cancle out_event e)
  unfolding listen cancle handler
  cancle-listen f g e = ground arith
