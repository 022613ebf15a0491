-- ===== src/Lock.antt =====
-- rocket/rocket/common/mutex.h: a mutex and its guard. Threads are numbers.
use rpc4grad.Prelude.{
  ℕ, ◌≡◌, ◌≢◌, refl, Bool, true, false, Option, none, some, ◌==◌, ==_self, ==_iff, Bool-cases, inl,
  inr, ap, if◌then◌else◌, Outcome, ok, fault, not_locked, ◌>>=◌,
}

-- pthread_mutex_t: the thread that holds it.
abbrev Mutex : Type 0
Mutex = Option ℕ

-- `none` while the caller has to wait. A default mutex deadlocks a thread that holds it.
unfoldable lock_mutex : ℕ → Mutex → Option Mutex
lock_mutex tid none = some (some tid)
lock_mutex tid (some owner) = none

-- To unlock a mutex that the thread does not hold is undefined.
unfoldable unlock_mutex : ℕ → Mutex → Outcome Mutex
unlock_mutex tid none = fault not_locked
unlock_mutex tid (some owner) = if owner == tid then ok none else fault not_locked

-- m_is_lock of a guard, with the mutex that it refers to.
pub record ScopeMutex : Type 0 where
  pub mutex : Mutex
  pub is_lock : Bool

-- ScopeMutex(T& mutex)
unfoldable pub new_scope : ℕ → Mutex → Option ScopeMutex
unfolding lock_mutex
new_scope tid m = elim (lock_mutex tid m) [
  | none ↦ none
  | some m' ↦ some (record { mutex = m'; is_lock = true })
]

unfoldable lock : ℕ → ScopeMutex → Option ScopeMutex
unfolding lock_mutex
lock tid s = elim s.is_lock [
  | true ↦ some s
  | false ↦ elim (lock_mutex tid s.mutex) [ none ↦ none | some m' ↦ some (record s { mutex = m' }) ]
]

unfoldable pub unlock : ℕ → ScopeMutex → Outcome ScopeMutex
unfolding unlock_mutex
unlock tid s = elim s.is_lock [
  | true ↦ unlock_mutex tid s.mutex >>= λ m'. ok (record s { mutex = m' })
  | false ↦ ok s
]

-- ~ScopeMutex, with the mutex that it leaves.
unfoldable pub destroy : ℕ → ScopeMutex → Outcome Mutex
unfolding unlock_mutex
destroy tid s = unlock_mutex tid s.mutex

-- A guard that is left alone holds the mutex from its constructor to its destructor.
destroy-new_scope :
    (tid : ℕ)
    → (s : ScopeMutex) × (new_scope tid none ≡ some s)
      × (s.mutex ≡ some tid)
      × (destroy tid s ≡ ok none)
unfolding new_scope lock_mutex destroy unlock_mutex
destroy-new_scope tid = (record { mutex = some tid; is_lock = true }, refl, refl, rw (==_self tid))

-- A guard whose unlock has been called unlocks the mutex a second time in its destructor: after
-- the first time the mutex is free, or another thread holds it, and both are undefined.
pub destroy-unlock :
    (tid : ℕ) (later : Mutex)
    → later ≢ some tid
    → (s : ScopeMutex) × (s' : ScopeMutex) × (new_scope tid none ≡ some s)
      × (unlock tid s ≡ ok s')
      × (s'.mutex ≡ none)
      × (destroy tid (record s' { mutex = later }) ≡ fault not_locked)
unfolding new_scope lock_mutex unlock destroy unlock_mutex
destroy-unlock tid later n = (
  record { mutex = some tid; is_lock = true },
  record { mutex = none; is_lock = true },
  refl,
  rw (==_self tid),
  refl,
  not_owned later n,
)
  where
    not_owned : (m : Mutex) → m ≢ some tid → unlock_mutex tid m ≡ fault not_locked
    not_owned none k = refl
    not_owned (some owner) k = elim (Bool-cases (owner == tid)) [
      | inl e ↦ absurd (k (ap some ((==_iff owner tid).0 e)))
      | inr e ↦ rw e
    ]
