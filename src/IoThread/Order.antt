-- ===== src/IoThread/Order.antt =====
-- IOThread: what has happened before the constructor returns and before the loop runs.
use rpc4grad.Prelude.{
  inl, ℕ, zero, suc, ◌+◌, ◌-◌, ◌<◌, ◌≤◌, ◌≡◌, ◌≢◌, refl, arith, true, none, ◌⊎◌, inr,
}
use rpc4grad.IoThread.{
  Owner, waiting, constructed, joined, MainPc, entered, has_loop, has_id, posted, looping, ended,
  IoThread, created, start_thread, ThreadStep, makes_loop, takes_id, posts, begins, ends,
  constructs, calls_start, stop_thread, stops, joins, Reachable, first, later,
}

-- How far Main has come.
abbrev progress : MainPc → ℕ
progress entered = 0
progress has_loop = 1
progress has_id = 2
progress posted = 3
progress looping = 4
progress ended = 5

abbrev post_count : MainPc → ℕ
post_count entered = 0
post_count has_loop = 0
post_count has_id = 0
post_count _ = 1

abbrev loop_count : MainPc → ℕ
loop_count looping = 1
loop_count ended = 1
loop_count _ = 0

abbrev wait_count : Owner → ℕ
wait_count waiting = 0
wait_count _ = 1

-- The state by how far the two threads have come.
record IsOrdered (t : IoThread) : Type 0 where
  has_loop_set : 1 ≤ progress t.main → t.event_loop ≡ true
  has_id_set : 2 ≤ progress t.main → t.thread_id ≢ none
  init_posts : t.init_semaphore + wait_count t.owner ≡ post_count t.main
  start_posts : t.start_semaphore + loop_count t.main ≡ t.starts
  started_after : 0 < t.starts → t.owner ≢ waiting
  joined_after : t.owner ≡ joined → t.main ≡ ended
  ended_after : t.main ≡ ended → t.stop_flag ≡ true

created-IsOrdered : IsOrdered created
created-IsOrdered = record {
  has_loop_set = λ h. absurd (omega (arith, h));
  has_id_set = λ h. absurd (omega (arith, h));
  init_posts = refl;
  start_posts = refl;
  started_after = λ h. absurd (omega (arith, h));
  joined_after = λ h. absurd cc;
  ended_after = λ h. absurd cc;
}

ThreadStep-IsOrdered : {t u : IoThread} → ThreadStep t u → IsOrdered t → IsOrdered u
unfolding start_thread stop_thread
ThreadStep-IsOrdered {t} (makes_loop m) o = record {
  has_loop_set = λ h. refl;
  has_id_set = λ h. absurd (omega (arith, h));
  init_posts = ground (arith, o.init_posts, m);
  start_posts = ground (arith, o.start_posts, m);
  started_after = o.started_after;
  joined_after = λ h. absurd (ground (arith, m, o.joined_after h));
  ended_after = λ h. absurd cc;
}
ThreadStep-IsOrdered {t} (takes_id tid m) o = record {
  has_loop_set = λ h. o.has_loop_set (ground (arith, m));
  has_id_set = λ h e. cc;
  init_posts = ground (arith, o.init_posts, m);
  start_posts = ground (arith, o.start_posts, m);
  started_after = o.started_after;
  joined_after = λ h. absurd (ground (arith, m, o.joined_after h));
  ended_after = λ h. absurd cc;
}
ThreadStep-IsOrdered {t} (posts m) o = record {
  has_loop_set = λ h. o.has_loop_set (ground (arith, m));
  has_id_set = λ h. o.has_id_set (ground (arith, m));
  init_posts = ground (arith, o.init_posts, m);
  start_posts = ground (arith, o.start_posts, m);
  started_after = o.started_after;
  joined_after = λ h. absurd (ground (arith, m, o.joined_after h));
  ended_after = λ h. absurd cc;
}
ThreadStep-IsOrdered {t} (begins n m s) o = record {
  has_loop_set = λ h. o.has_loop_set (ground (arith, m));
  has_id_set = λ h. o.has_id_set (ground (arith, m));
  init_posts = ground (arith, o.init_posts, m, s);
  start_posts = ground (arith, o.start_posts, m, s);
  started_after = o.started_after;
  joined_after = λ h. absurd (ground (arith, m, o.joined_after h));
  ended_after = λ h. absurd cc;
}
ThreadStep-IsOrdered {t} (ends m f) o = record {
  has_loop_set = λ h. o.has_loop_set (ground (arith, m));
  has_id_set = λ h. o.has_id_set (ground (arith, m));
  init_posts = ground (arith, o.init_posts, m);
  start_posts = ground (arith, o.start_posts, m);
  started_after = o.started_after;
  joined_after = λ h. refl;
  ended_after = λ h. f;
}
ThreadStep-IsOrdered {t} (constructs n w s) o = record {
  has_loop_set = o.has_loop_set;
  has_id_set = o.has_id_set;
  init_posts = ground (arith, o.init_posts, w, s);
  start_posts = ground (arith, o.start_posts, w, s);
  started_after = λ h e. cc;
  joined_after = λ h. absurd cc;
  ended_after = o.ended_after;
}
ThreadStep-IsOrdered {t} (calls_start c) o = record {
  has_loop_set = o.has_loop_set;
  has_id_set = o.has_id_set;
  init_posts = ground (arith, o.init_posts, c);
  start_posts = ground (arith, o.start_posts, c);
  started_after = λ h e. ground (arith, c, e);
  joined_after = o.joined_after;
  ended_after = o.ended_after;
}
ThreadStep-IsOrdered {t} (stops c) o = record {
  has_loop_set = o.has_loop_set;
  has_id_set = o.has_id_set;
  init_posts = o.init_posts;
  start_posts = o.start_posts;
  started_after = o.started_after;
  joined_after = o.joined_after;
  ended_after = λ h. refl;
}
ThreadStep-IsOrdered {t} (joins c m) o = record {
  has_loop_set = o.has_loop_set;
  has_id_set = o.has_id_set;
  init_posts = ground (arith, o.init_posts, c);
  start_posts = ground (arith, o.start_posts, c);
  started_after = λ h e. cc;
  joined_after = λ h. m;
  ended_after = o.ended_after;
}

Reachable-IsOrdered : {t : IoThread} → Reachable t → IsOrdered t
Reachable-IsOrdered first = created-IsOrdered
Reachable-IsOrdered (later r s) = ThreadStep-IsOrdered s (Reachable-IsOrdered r)

-- Whatever the order of the two threads' steps: once the constructor has returned, the loop exists
-- and the thread's id is known.
pub Reachable-constructed :
    {t : IoThread} → Reachable t → t.owner ≢ waiting → (t.event_loop ≡ true) × (t.thread_id ≢ none)
Reachable-constructed {t} r w =
    let o = Reachable-IsOrdered r in
    let n = owner_waited t.owner w in
    let far = post_count-progress t.main (omega (arith, o.init_posts, n)) in
    (o.has_loop_set (omega (arith, far)), o.has_id_set (omega (arith, far)))
  where
    owner_waited : (p : Owner) → p ≢ waiting → wait_count p ≡ 1
    owner_waited waiting h = absurd (h refl)
    owner_waited constructed h = refl
    owner_waited joined h = refl

    post_count-progress : (p : MainPc) → 1 ≤ post_count p → 3 ≤ progress p
    post_count-progress entered h = absurd (omega (arith, h))
    post_count-progress has_loop h = absurd (omega (arith, h))
    post_count-progress has_id h = absurd (omega (arith, h))
    post_count-progress posted h = omega arith
    post_count-progress looping h = omega arith
    post_count-progress ended h = omega arith

-- The loop runs only after start has been called, which is after the constructor has returned, and
-- only once however often start is called: the calls beyond the first wait in the semaphore.
pub Reachable-looping :
    {t : IoThread}
    → Reachable t
    → t.main ≡ looping
    → (t.starts ≡ suc t.start_semaphore) × (t.owner ≢ waiting) × (t.owner ≢ joined)
Reachable-looping {t} r m =
    let o = Reachable-IsOrdered r in
    let n : t.starts ≡ suc t.start_semaphore = ground (arith, o.start_posts, m) in
    (n, o.started_after (omega (arith, n)), λ j. ground (arith, m, o.joined_after j))

abbrev owner_rank : Owner → ℕ
owner_rank waiting = 2
owner_rank constructed = 1
owner_rank joined = 0

-- How far both threads are from the end.
abbrev pub rank : IoThread → ℕ
rank t = owner_rank t.owner + (5 - progress t.main)

-- The two threads are not stuck: while the constructor waits, from a start until the loop runs, and
-- after a start and a stop until the thread is joined, there is a step that brings them nearer to
-- the end.
pub Reachable-goes_on :
    {t : IoThread}
    → Reachable t
    → (t.owner ≡ waiting) ⊎ ((0 < t.starts) × ((t.main ≢ looping) ⊎ (t.stop_flag ≡ true)))
    → t.owner ≢ joined
    → (u : IoThread) × ThreadStep t u × (rank u < rank t)
Reachable-goes_on {t} r w j = by_place t.main t.owner refl refl
  where
    o : IsOrdered t
    o = Reachable-IsOrdered r

    Nearer : Type 0
    Nearer = (u : IoThread) × ThreadStep t u × (rank u < rank t)

    returns : t.owner ≡ waiting → post_count t.main ≡ 1 → Nearer
    returns q p =
        let one : t.init_semaphore ≡ suc 0 = ground (arith, o.init_posts, q, p) in
        (_, constructs 0 q one, ground (arith, q))

    suc_of : (k : ℕ) → 0 < k → (n : ℕ) × (k ≡ suc n)
    suc_of zero h = absurd (omega (arith, h))
    suc_of (suc n) h = (n, refl)

    stopped : t.main ≡ looping → t.owner ≡ constructed → t.stop_flag ≡ true
    stopped m e = elim w [
      | inl q ↦ absurd (ground (arith, q, e))
      | inr (s, inl n) ↦ absurd (n m)
      | inr (s, inr f) ↦ f
    ]

    by_place : (p : MainPc) (q : Owner) → t.main ≡ p → t.owner ≡ q → Nearer
    by_place p joined m e = absurd (j e)
    by_place entered q m e = (_, makes_loop m, ground (arith, m))
    by_place has_loop q m e = (_, takes_id 0 m, ground (arith, m))
    by_place has_id q m e = (_, posts m, ground (arith, m))
    by_place posted waiting m e = returns e (ground (arith, m))
    by_place posted constructed m e =
        let (n, k) = suc_of t.start_semaphore (ground (arith, o.start_posts, m, w, e)) in
        (_, begins n m k, ground (arith, m))
    by_place looping waiting m e = returns e (ground (arith, m))
    by_place looping constructed m e = (_, ends m (stopped m e), ground (arith, m))
    by_place ended waiting m e = returns e (ground (arith, m))
    by_place ended constructed m e = (_, joins e m, ground (arith, e))

-- A thread whose loop has not been told to stop has not ended and is not joined: after start and
-- join alone, which is what IOthreadGroup offers, the joining thread waits as long as nobody stops
-- the loop.
pub Reachable-unstopped :
    {t : IoThread} → Reachable t → t.stop_flag ≢ true → (t.main ≢ ended) × (t.owner ≢ joined)
Reachable-unstopped {t} r f =
    let o = Reachable-IsOrdered r in
    (λ e. f (o.ended_after e), λ j. f (o.ended_after (o.joined_after j)))
