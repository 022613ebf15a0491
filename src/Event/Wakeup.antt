-- ===== src/Event/Wakeup.antt =====
-- rocket/rocket/net/wakeup_fd_event.{h,cpp}, and the handler that initWakeupFdEvent gives the
-- descriptor. The descriptor is an eventfd: a counter that write(2) adds to and read(2) empties.
use rpc4grad.Prelude.{
  ℕ, zero, suc, ◌+◌, ◌-◌, ◌^◌, ◌≤◌, ◌<◌, ◌≡◌, refl, ◌∙◌, arith, Bool, true, false, not, ◌&&◌,
  Option, none, some, leb, ◌==◌, if◌then◌else◌,
}

-- The greatest value of the counter.
abbrev counter_max : ℕ
counter_max = 2 ^ 64 - 2

-- The eight bytes of `buf`, as the kernel reads them: 'a' in the lowest.
abbrev wakeup_value : ℕ
wakeup_value = b'a'

-- write(2) of a value that does not fit gives an error, which is logged.
unfoldable pub wakeup_write : ℕ → ℕ
wakeup_write counter =
    if leb (counter + wakeup_value) counter_max then counter + wakeup_value else counter

-- `again` tells whether errno is EAGAIN.
pub record Drain : Type 0 where
  pub counter : ℕ
  pub again : Bool

-- read(2) of eight bytes: whether it gives something, and what it leaves. A read that succeeds does
-- not touch errno.
unfoldable read_counter : Drain → Bool × Drain
read_counter d =
    if d.counter == 0
    then (false, record { counter = 0; again = true })
    else (true, record { counter = 0; again = d.again })

-- The `while` of the handler; `none` while it still runs after so many reads.
unfoldable pub drain_wakeup : ℕ → Drain → Option Drain
unfolding read_counter
drain_wakeup zero d = none
drain_wakeup (suc fuel) d =
    let (got, d') = read_counter d in
    elim (got && not (d'.again)) [ true ↦ drain_wakeup fuel d' | false ↦ some d' ]

read_counter-full :
    (counter : ℕ) (again : Bool)
    → 0 < counter
    → read_counter (record { counter = counter; again = again })
      ≡ (true, record { counter = 0; again = again })
unfolding read_counter
read_counter-full counter again h = let full : (counter == 0) ≡ false = ground arith in rw (full)

read_counter-empty :
    (again : Bool)
    → read_counter (record { counter = 0; again = again })
      ≡ (false, record { counter = 0; again = true })
unfolding read_counter
read_counter-empty again = refl

drain_wakeup-ends :
    (fuel : ℕ) (d d' : Drain) (got : Bool)
    → read_counter d ≡ (got, d')
    → (got && not (d'.again)) ≡ false
    → drain_wakeup (suc fuel) d ≡ some d'
unfolding drain_wakeup
drain_wakeup-ends fuel d d' got e h = simp (drain_wakeup, e, h)

drain_wakeup-again :
    (fuel : ℕ) (d d' : Drain)
    → read_counter d ≡ (true, d')
    → d'.again ≡ false
    → drain_wakeup (suc fuel) d ≡ drain_wakeup fuel d'
unfolding drain_wakeup
drain_wakeup-again fuel d d' e h = simp (drain_wakeup, e, h)

drain_wakeup-empties :
    (counter fuel : ℕ) (again : Bool)
    → 0 < counter
    → (d : Drain) × (drain_wakeup (suc (suc fuel)) (record { counter = counter; again = again })
        ≡ some d)
      × (d.counter ≡ 0)
drain_wakeup-empties counter fuel true h =
    (_, drain_wakeup-ends (suc fuel) _ _ true (read_counter-full counter true h) refl, refl)
drain_wakeup-empties counter fuel false h = (
  _,
  drain_wakeup-again (suc fuel) _ _ (read_counter-full counter false h) refl
      ∙ drain_wakeup-ends fuel _ _ false (read_counter-empty false) refl,
  refl,
)

-- However many wakeups there have been, the descriptor can be read after one; and the handler ends
-- after two reads at most and leaves the counter at 0, so that the next wakeup is seen again.
pub drain_wakeup-wakeup :
    (counter fuel : ℕ) (again : Bool)
    → 2 ≤ fuel
    → (0 < wakeup_write counter)
      × ((d : Drain) × (drain_wakeup fuel (record { counter = wakeup_write counter; again = again })
            ≡ some d)
          × (d.counter ≡ 0))
unfolding wakeup_write
drain_wakeup-wakeup counter zero again h = absurd (omega (arith, h))
drain_wakeup-wakeup counter (suc zero) again h = absurd (omega (arith, h))
drain_wakeup-wakeup counter (suc (suc fuel)) again h =
    let written : 0 < wakeup_write counter = ground arith in
    (written, drain_wakeup-empties (wakeup_write counter) fuel again written)
