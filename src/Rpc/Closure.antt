-- ===== src/Rpc/Closure.antt =====
-- rocket/rocket/net/rpc/rpc_closure.h, rpc_interface.{h,cpp} and common/exception.h. Objects are
-- named by numbers; what a callback does, and how it ends, is a parameter.
use rpc4grad.Prelude.{
  ℕ, ◌^◌, ◌-◌, ◌≡◌, ◌≢◌, refl, sym, ap, subst, Option, none, some, List, [], ◌∷◌, ◌++◌, append-nil,
}
use rpc4grad.RunTime.{RunTime, set_rpc_interface}

-- How a callback ends: as usual, or with an exception. A RocketException has a code and a text.
pub data Ending : Type 0 where
  returned : Ending
  rocket_exception : ℕ → List ℕ → Ending
  std_exception unknown_exception : Ending

-- RpcClosure: the interface that it shares, and its callback.
pub record RpcClosure (A : Type 0) : Type 0 where
  pub interface : Option ℕ
  pub cb : Option A

-- `errors` are the calls of set_error so far: the interface, the code and the text. `user` is what
-- the callbacks and the handlers of exceptions work on.
pub record World (S : Type 0) : Type 0 where
  pub run_time : RunTime
  pub errors : List (ℕ × ℕ × List ℕ)
  pub user : S

-- An int32_t of -1.
abbrev pub minus_one : ℕ
minus_one = 2 ^ 32 - 1

pub record ExceptionTexts : Type 0 where
  pub std_text : List ℕ
  pub unknown_text : List ℕ

-- `handle` is the virtual RocketException::handle of what has been thrown, and `tell` the virtual
-- set_error of an interface: each may change the user's state and may throw.
module _ {A S : Type 0} (texts : ExceptionTexts) (call : A → S → S × Ending)
    (handle : ℕ → List ℕ → S → S × Ending) (tell : ℕ → ℕ → List ℕ → S → S × Ending) where
  unfoldable pub enter : Option ℕ → World S → World S
  unfolding set_rpc_interface
  enter none w = w
  enter (some i) w = record w { run_time = set_rpc_interface (some i) w.run_time }

  unfoldable pub call_cb : Option A → World S → World S × Ending
  call_cb none w = (w, returned)
  call_cb (some f) w = let (s, e) = call f w.user in (record w { user = s }, e)

  -- reset, which an exception that leaves a handler skips.
  unfoldable pub let_go : Option ℕ → Ending → Option ℕ
  let_go i returned = none
  let_go i (rocket_exception code info) = i
  let_go i std_exception = i
  let_go i unknown_exception = i

  -- set_error, then reset, of the interface if there is one.
  unfoldable pub report : Option ℕ → ℕ → List ℕ → World S → Option ℕ × World S × Ending
  unfolding let_go
  report none code info w = (none, w, returned)
  report (some i) code info w =
      let (s, e) = tell i code info w.user in
      (let_go (some i) e, record w { user = s; errors = w.errors ++ ((i, code, info) ∷ []) }, e)

  -- What follows e.handle().
  unfoldable pub after_handle :
      Option ℕ → ℕ → List ℕ → World S → Ending → Option ℕ × World S × Ending
  unfolding report
  after_handle i code info w returned = report i code info w
  after_handle i code info w (rocket_exception code' info') = (i, w, rocket_exception code' info')
  after_handle i code info w std_exception = (i, w, std_exception)
  after_handle i code info w unknown_exception = (i, w, unknown_exception)

  -- What follows m_cb(): the reset, or the handlers of Run. What they throw leaves Run.
  unfoldable pub catch_ending : Option ℕ → Ending → World S → Option ℕ × World S × Ending
  unfolding report after_handle
  catch_ending i returned w = (none, w, returned)
  catch_ending i (rocket_exception code info) w =
      let (s, e) = handle code info w.user in after_handle i code info (record w { user = s }) e
  catch_ending i std_exception w = report i minus_one texts.std_text w
  catch_ending i unknown_exception w = report i minus_one texts.unknown_text w

  -- Run, with how it ends.
  unfoldable pub run : RpcClosure A → World S → RpcClosure A × World S × Ending
  unfolding enter call_cb catch_ending
  run c w =
      let (w', e) = call_cb c.cb (enter c.interface w) in
      let (i, w2, out) = catch_ending c.interface e w' in (record c { interface = i }, w2, out)

  -- The calls of set_error that an ending stands for.
  abbrev pub reports_of : ℕ → Ending → List (ℕ × ℕ × List ℕ)
  reports_of i returned = []
  reports_of i (rocket_exception code info) = (i, code, info) ∷ []
  reports_of i std_exception = (i, minus_one, texts.std_text) ∷ []
  reports_of i unknown_exception = (i, minus_one, texts.unknown_text) ∷ []

  -- No handle throws, and no set_error.
  abbrev pub HandlersReturn : Type 0
  HandlersReturn =
      ((code : ℕ) (info : List ℕ) (s : S) → (handle code info s).1 ≡ returned)
      × ((i code : ℕ) (info : List ℕ) (s : S) → (tell i code info s).1 ≡ returned)

  report-tells :
      (i code : ℕ) (info : List ℕ) (w : World S)
      → (tell i code info w.user).1 ≡ returned
      → let (i', w', out) = report (some i) code info w in
        (w'.errors ≡ w.errors ++ ((i, code, info) ∷ []))
        × (i' ≡ none)
        × (out ≡ returned)
        × (w'.run_time ≡ w.run_time)
  unfolding report let_go
  report-tells i code info w h = (refl, ap (let_go (some i)) h, h, refl)

  catch_ending-reports :
      (i : ℕ) (e : Ending) (w : World S)
      → HandlersReturn
      → let (i', w', out) = catch_ending (some i) e w in
        (w'.errors ≡ w.errors ++ reports_of i e)
        × (i' ≡ none)
        × (out ≡ returned)
        × (w'.run_time ≡ w.run_time)
  unfolding catch_ending after_handle
  catch_ending-reports i returned w h = (sym (append-nil w.errors), refl, refl, refl)
  catch_ending-reports i (rocket_exception code info) w h =
      let u = handle code info w.user in
      let w' : World S = record w { user = u.0 } in
      subst
        (λ out.
          let (i', w2, end) = after_handle (some i) code info w' out in
          (w2.errors ≡ w.errors ++ ((i, code, info) ∷ []))
          × (i' ≡ none)
          × (end ≡ returned)
          × (w2.run_time ≡ w.run_time))
        (sym (h.0 code info w.user)) (report-tells i code info w' (h.1 i code info u.0))
  catch_ending-reports i std_exception w h =
      report-tells i minus_one texts.std_text w (h.1 i minus_one texts.std_text w.user)
  catch_ending-reports i unknown_exception w h =
      report-tells i minus_one texts.unknown_text w (h.1 i minus_one texts.unknown_text w.user)

  -- If no handle of an exception and no set_error throws, then however its callback ends, Run of a
  -- closure with an interface returns: it tells the interface exactly the error that the ending
  -- stands for, none if the callback returns, and lets the interface go; but the run time still
  -- points to the interface, which may be gone.
  pub run-reports :
      (i : ℕ) (f : A) (w : World S)
      → HandlersReturn
      → let (c', w', out) = run (record { interface = some i; cb = some f }) w in
        (w'.errors ≡ w.errors ++ reports_of i (call f w.user).1)
        × (c' ≡ record { interface = none; cb = some f })
        × (out ≡ returned)
        × (w'.run_time.rpc_interface ≡ some i)
  unfolding run enter call_cb set_rpc_interface
  run-reports i f w h =
      let (u, e) = call f w.user in
      let k =
        catch_ending-reports i e
          (record w { run_time = set_rpc_interface (some i) w.run_time; user = u }) h in
      (
        k.0,
        ap (λ j. record { interface = j; cb = some f }) k.1,
        k.2,
        ap (λ (r : RunTime). r.rpc_interface) k.3,
      )

  -- An exception from the handle of the exception that a callback has thrown leaves Run: the
  -- interface is told nothing and is not let go.
  pub run-escapes :
      (i : ℕ) (f : A) (w : World S) (code : ℕ) (info : List ℕ)
      → (call f w.user).1 ≡ rocket_exception code info
      → (handle code info (call f w.user).0).1 ≢ returned
      → let (c', w', out) = run (record { interface = some i; cb = some f }) w in
        (w'.errors ≡ w.errors)
        × (c' ≡ record { interface = some i; cb = some f })
        × (out ≡ (handle code info (call f w.user).0).1)
  unfolding run enter call_cb set_rpc_interface catch_ending after_handle
  run-escapes i f w code info q h =
      let (u, e) = call f w.user in
      let w1 : World S = record w { run_time = set_rpc_interface (some i) w.run_time; user = u } in
      let d = handle code info u in
      let k = escaped i code info (record w1 { user = d.0 }) d.1 h in
      subst
        (λ x.
          let (i', w', out) = catch_ending (some i) x w1 in
          (w'.errors ≡ w.errors)
          × (◌≡◌ {A = RpcClosure A} (record { interface = i'; cb = some f })
              (record { interface = some i; cb = some f }))
          × (out ≡ d.1))
        (sym q) (k.0, ap {B = RpcClosure A} (λ j. record { interface = j; cb = some f }) k.1, k.2)
    where
      escaped :
          (i code : ℕ) (info : List ℕ) (w : World S) (e : Ending)
          → e ≢ returned
          → let (i', w', out) = after_handle (some i) code info w e in
            (w'.errors ≡ w.errors) × (i' ≡ some i) × (out ≡ e)
      escaped i code info w returned h = absurd (h refl)
      escaped i code info w (rocket_exception code' info') h = (refl, refl, refl)
      escaped i code info w std_exception h = (refl, refl, refl)
      escaped i code info w unknown_exception h = (refl, refl, refl)

-- RpcInterface: the objects that it owns, `none` where the pointer is null.
pub record RpcInterface : Type 0 where
  pub req : Option ℕ
  pub rsp : Option ℕ
  pub done : Option ℕ
  pub controller : Option ℕ

abbrev taken : Option ℕ → List ℕ
taken none = []
taken (some p) = p ∷ []

-- destroy, with the objects that it deletes.
unfoldable pub destroy_interface : RpcInterface → List ℕ × RpcInterface
destroy_interface i = (
  taken i.req ++ (taken i.rsp ++ (taken i.done ++ taken i.controller)),
  record { req = none; rsp = none; done = none; controller = none },
)

-- reply, with the closures that it runs.
unfoldable pub reply_interface : RpcInterface → List ℕ
reply_interface i = taken i.done

-- ~RpcInterface: what is run, and then what is deleted.
unfoldable pub end_interface : RpcInterface → List ℕ × List ℕ
unfolding reply_interface destroy_interface
end_interface i = (reply_interface i, (destroy_interface i).0)

-- newRpcClosure
unfoldable pub new_rpc_closure : ℕ → {A : Type 0} → A → RpcClosure A
new_rpc_closure self cb = record { interface = some self; cb = some cb }
