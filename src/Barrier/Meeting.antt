-- ===== src/Barrier/Meeting.antt =====
-- The promise of a barrier for N threads: before the N-th call of `wait` nobody passes but threads
-- that the condition wakes for no reason, and nobody waits behind it.
use mathlib.Core.Path.{subst}
use yat.Common.{
  ℕ, ◌+◌, ◌^◌, ◌⊎◌, ◌≤◌, ◌<◌, ◌≡◌, ◌≢◌, refl, sym, ◌∙◌, ap, true, false, List, [], ◌∷◌, ◌++◌, some,
  ltb, ◌==◌, ==_iff, add64, arith, length, length-append, Bool-cases, inl, inr,
}
use yat.Barrier.{
  Barrier, max_count, make, has_expired, throws_expired, broadcasts, waits, enter_wait, Threads,
  nobody_at, entered, arrive, leave, give_up, stray, Move, arrives, leaves, gives_up, strays,
  History, begins, goes_on,
}

-- The number of the calls of `wait` that were not refused.
abbrev pub admitted : Threads → ℕ
admitted s =
    length s.blocked + length s.woken + length s.returned + length s.timed_out + length s.strayed

pub record IsValid (count : ℕ) (s : Threads) : Type 0 where
  pub counts : s.barrier.thread_count ≡ count
  pub small : count ≤ max_count
  pub counted : s.barrier.waiters_count ≡ admitted s
  pub within : admitted s ≤ count
  pub closed : admitted s < count → (s.woken ≡ []) × (s.returned ≡ []) × (s.refused ≡ [])
  pub opened : admitted s ≡ count → s.blocked ≡ []

begins-IsValid : (count : ℕ) (b : Barrier) → make count ≡ some b → IsValid count (nobody_at b)
unfolding make
begins-IsValid count b h = elim (Bool-cases (ltb max_count count)) [
  | inl e ↦ cc (rw e at h)
  | inr e ↦
      let new : Barrier = record { thread_count = count; waiters_count = 0 } in
      let made : some new ≡ some b = rw e at h in
      let same : new ≡ b = cc in
      subst (λ c. IsValid count (nobody_at c)) same
        (record {
          counts = refl;
          small = ground (arith, e);
          counted = refl;
          within = omega arith;
          closed = λ (h : 0 < count). (refl, refl, refl);
          opened = λ (h : 0 ≡ count). refl;
        })
]

-- The three ways in which a call of `wait` enters.
enter-cases :
    (b : Barrier)
    → ((has_expired b ≡ true) × (enter_wait b ≡ throws_expired))
      ⊎ ((has_expired b ≡ false)
          × (add64 b.waiters_count 1 ≡ b.thread_count)
          × (enter_wait b ≡ broadcasts (record b { waiters_count = add64 b.waiters_count 1 })))
      ⊎ ((has_expired b ≡ false)
          × (add64 b.waiters_count 1 ≢ b.thread_count)
          × (enter_wait b ≡ waits (record b { waiters_count = add64 b.waiters_count 1 })))
unfolding enter_wait
enter-cases b = elim (Bool-cases (has_expired b)) [
  | inl e ↦ inl (e, rw e refl)
  | inr e ↦ elim (Bool-cases (add64 b.waiters_count 1 == b.thread_count)) [
    | inl last ↦
        inr (inl (e, (==_iff (add64 b.waiters_count 1) b.thread_count).0 last, rw (e, last) refl))
    | inr more ↦ inr (inr (e, (λ h. ground (arith, more, h)), rw (e, more) refl))
  ]
]

module _ (count t : ℕ) (s : Threads) (v : IsValid count s) where
  refused-IsValid : has_expired s.barrier ≡ true → IsValid count (entered t s throws_expired)
  refused-IsValid h =
      let full : admitted s ≡ count = ground (arith, h, v.counts, v.counted) in
      record {
        counts = v.counts;
        small = v.small;
        counted = v.counted;
        within = v.within;
        closed = λ less. absurd (omega arith);
        opened = v.opened;
      }

  next_waiter : admitted s < count → add64 s.barrier.waiters_count 1 ≡ admitted s + 1
  next_waiter less =
      let fits : admitted s < 2 ^ 63 = omega (arith, v.small) in
      ap (λ k. add64 k 1) v.counted ∙ omega arith

  room : has_expired s.barrier ≡ false → admitted s < count
  room h = ground (arith, h, v.counts, v.counted, v.within)

  broadcasts-IsValid :
      (b : Barrier)
      → b ≡ record (s.barrier) { waiters_count = add64 s.barrier.waiters_count 1 }
      → admitted s < count
      → add64 s.barrier.waiters_count 1 ≡ s.barrier.thread_count
      → IsValid count (entered t s (broadcasts b))
  broadcasts-IsValid b e less last =
      let next = next_waiter less in
      let full : admitted (entered t s (broadcasts b)) ≡ count =
        omega (arith, length-append s.blocked s.woken, next, last, v.counts) in
      record {
        counts = ap (λ (c : Barrier). c.thread_count) e ∙ v.counts;
        small = v.small;
        counted = ap (λ (c : Barrier). c.waiters_count) e ∙ last ∙ v.counts ∙ sym full;
        within = omega arith;
        closed = λ below. absurd (omega arith);
        opened = λ h. refl;
      }

  waits-IsValid :
      (b : Barrier)
      → b ≡ record (s.barrier) { waiters_count = add64 s.barrier.waiters_count 1 }
      → admitted s < count
      → add64 s.barrier.waiters_count 1 ≢ s.barrier.thread_count
      → IsValid count (entered t s (waits b))
  waits-IsValid b e less more =
      let next = next_waiter less in
      let one : admitted (entered t s (waits b)) ≡ admitted s + 1 = omega arith in
      let differs : admitted s + 1 ≢ count = λ h. more (next ∙ h ∙ sym v.counts) in
      record {
        counts = ap (λ (c : Barrier). c.thread_count) e ∙ v.counts;
        small = v.small;
        counted = ap (λ (c : Barrier). c.waiters_count) e ∙ next ∙ sym one;
        within = omega arith;
        closed = λ below. v.closed less;
        opened = λ h. absurd (differs (sym one ∙ h));
      }

  arrive-IsValid : IsValid count (arrive t s)
  unfolding arrive
  arrive-IsValid = elim (enter-cases s.barrier) [
    | inl (h, e) ↦ rw e (refused-IsValid h)
    | inr (inl (h, last, e)) ↦ rw e (
        broadcasts-IsValid (record (s.barrier) { waiters_count = add64 s.barrier.waiters_count 1 })
          refl (room h) last)
    | inr (inr (h, more, e)) ↦ rw e (
        waits-IsValid (record (s.barrier) { waiters_count = add64 s.barrier.waiters_count 1 }) refl
          (room h) more)
  ]

  leave-IsValid : (xs ys : List ℕ) → s.woken ≡ xs ++ t ∷ ys → IsValid count (leave t xs ys s)
  leave-IsValid xs ys e =
      let more : length s.woken ≡ length xs + (length ys + 1) =
        ap length e ∙ length-append xs (t ∷ ys) ∙ omega arith in
      let same : admitted (leave t xs ys s) ≡ admitted s = omega (arith, length-append xs ys) in
      record {
        counts = v.counts;
        small = v.small;
        counted = v.counted ∙ sym same;
        within = omega (arith, v.within);
        closed = λ less.
            let (none_woken, _, _) = v.closed (omega arith) in
            absurd (omega (arith, ap length none_woken));
        opened = λ h. v.opened (sym same ∙ h);
      }

  -- A blocked thread goes where it is neither woken by the broadcast nor returned nor refused.
  unblocked-IsValid :
      (xs ys : List ℕ) (s' : Threads)
      → s.blocked ≡ xs ++ t ∷ ys
      → s'.barrier ≡ s.barrier
      → (s'.woken ≡ s.woken) × (s'.returned ≡ s.returned) × (s'.refused ≡ s.refused)
      → admitted s' ≡ admitted s
      → IsValid count s'
  unblocked-IsValid xs ys s' e b (w, r, f) same =
      let more : length s.blocked ≡ length xs + (length ys + 1) =
        ap length e ∙ length-append xs (t ∷ ys) ∙ omega arith in
      record {
        counts = ap (λ (c : Barrier). c.thread_count) b ∙ v.counts;
        small = v.small;
        counted = ap (λ (c : Barrier). c.waiters_count) b ∙ v.counted ∙ sym same;
        within = omega (arith, v.within, same);
        closed = λ less.
            let before = v.closed (omega (arith, same, less)) in
            (w ∙ before.0, r ∙ before.1, f ∙ before.2);
        opened = λ h. absurd (omega (arith, more, ap length (v.opened (sym same ∙ h))));
      }

  one_moved : (xs ys : List ℕ) → s.blocked ≡ xs ++ t ∷ ys → length s.blocked ≡ length (xs ++ ys) + 1
  one_moved xs ys e = ap length e ∙ length-append xs (t ∷ ys) ∙ omega (arith, length-append xs ys)

  give_up-IsValid : (xs ys : List ℕ) → s.blocked ≡ xs ++ t ∷ ys → IsValid count (give_up t xs ys s)
  give_up-IsValid xs ys e =
      unblocked-IsValid xs ys (give_up t xs ys s) e refl (refl, refl, refl)
        (omega (arith, one_moved xs ys e))

  stray-IsValid : (xs ys : List ℕ) → s.blocked ≡ xs ++ t ∷ ys → IsValid count (stray t xs ys s)
  stray-IsValid xs ys e =
      unblocked-IsValid xs ys (stray t xs ys s) e refl (refl, refl, refl)
        (omega (arith, one_moved xs ys e))

Move-IsValid : {s t : Threads} (count : ℕ) → Move s t → IsValid count s → IsValid count t
Move-IsValid count (arrives i s) v = arrive-IsValid count i s v
Move-IsValid count (leaves i xs ys s e) v = leave-IsValid count i s v xs ys e
Move-IsValid count (gives_up i xs ys s e) v = give_up-IsValid count i s v xs ys e
Move-IsValid count (strays i xs ys s e) v = stray-IsValid count i s v xs ys e

History-IsValid : (count : ℕ) (s : Threads) → History count s → IsValid count s
History-IsValid count s (begins b h) = begins-IsValid count b h
History-IsValid count s (goes_on {s = r} reach st) =
    Move-IsValid count st (History-IsValid count r reach)

-- In whatever order threads call `wait`, return, give up and are woken for no reason at a barrier
-- for `count` threads: at most `count` calls are admitted; while there are fewer, no call was refused
-- and none has returned or is about to, but those of threads that the condition woke for no reason;
-- and once there are `count`, counting those that have left since, the barrier has expired and no
-- thread is blocked at it.
pub meets :
    (count : ℕ) (s : Threads)
    → History count s
    → (admitted s ≤ count)
      × (admitted s < count → (s.woken ≡ []) × (s.returned ≡ []) × (s.refused ≡ []))
      × (admitted s ≡ count → (has_expired s.barrier ≡ true) × (s.blocked ≡ []))
meets count s reach =
    let v = History-IsValid count s reach in
    (v.within, v.closed, λ h. (ground (arith, h, v.counts, v.counted), v.opened h))
