-- ===== src/Sync.antt =====
-- Locks on addresses: yat::SyncAccess (src/threading/SyncAccess.cpp), for one address. `lock_obj` is
-- three steps: the section under the lock of the map, the lock of the object's own mutex, and
-- the entry of the owner; `unlock_obj` is one section. The counts are words of 32 bits.
use yat.Common.{
  ℕ, ◌+◌, ◌<◌, ◌^◌, ◌≡◌, Bool, true, false, List, [], ◌∷◌, ◌++◌, Option, none, some, ◌==◌,
  if◌then◌else◌, length, add32, sub32,
}
pub mod Invariant
pub mod Exclusion
mod Tests

-- `owner` is m_CurrentThreadId, and `locked` the state of m_Mutex.
pub record SyncObject : Type 0 where
  pub thread_count : ℕ
  pub lock_count : ℕ
  pub owner : Option ℕ
  pub locked : Bool

-- The entry of the map; the threads that wait for the mutex; the one that has it and has not entered
-- its name yet; and a thread once for each of its locks.
pub record Sync : Type 0 where
  pub entry : Option SyncObject
  pub waiting : List ℕ
  pub entering : Option ℕ
  pub holding : List ℕ

abbrev pub unused : Sync
unused = record { entry = none; waiting = []; entering = none; holding = [] }

abbrev pub is_owner : ℕ → Option ℕ → Bool
is_owner t none = false
is_owner t (some u) = u == t

abbrev pub count_lock : SyncObject → SyncObject
count_lock o = record o { lock_count = add32 o.lock_count 1 }

abbrev pub count_thread : SyncObject → SyncObject
count_thread o = record o { thread_count = add32 o.thread_count 1 }

-- `lock_obj` under the lock of the map.
unfoldable pub lock_with : ℕ → Option SyncObject → Sync → Sync
lock_with t none s = record s {
  entry = some (record { thread_count = 0; lock_count = add32 0 1; owner = none; locked = false });
  waiting = t ∷ s.waiting;
}
lock_with t (some o) s =
    if is_owner t o.owner
    then record s { entry = some (count_lock (count_thread o)); holding = t ∷ s.holding }
    else record s { entry = some (count_lock o); waiting = t ∷ s.waiting }

abbrev pub lock_obj : ℕ → Sync → Sync
lock_obj t s = lock_with t s.entry s

-- The mutex is locked for a thread; the others that wait are `xs` and `ys`.
abbrev pub acquire : ℕ → List ℕ → List ℕ → SyncObject → Sync → Sync
acquire t xs ys o s = record s {
  entry = some (record o { locked = true });
  waiting = xs ++ ys;
  entering = some t;
}

abbrev pub settle : ℕ → SyncObject → Sync → Sync
settle t o s = record s {
  entry = some (count_thread (record o { owner = some t }));
  entering = none;
  holding = t ∷ s.holding;
}

abbrev pub leave_thread : SyncObject → SyncObject
leave_thread o = if o.thread_count == 0 then record o { owner = none; locked = false } else o

abbrev pub leave_map : SyncObject → Option SyncObject
leave_map o = if o.lock_count == 0 then none else some o

unfoldable pub unlock_entry : Option SyncObject → Option SyncObject
unlock_entry none = none
unlock_entry (some o) = leave_map (
    leave_thread
      (record o { thread_count = sub32 o.thread_count 1; lock_count = sub32 o.lock_count 1 }))

-- `unlock_obj` by a thread that holds a lock.
abbrev pub unlock_obj : List ℕ → List ℕ → Sync → Sync
unlock_obj xs ys s = record s { entry = unlock_entry s.entry; holding = xs ++ ys }

abbrev pub count_of : Option ℕ → ℕ
count_of none = 0
count_of (some t) = 1

-- The locks that are held or asked for.
abbrev pub total : Sync → ℕ
total s = length s.waiting + count_of s.entering + length s.holding

pub data Turn : Sync → Sync → Type 0 where
  locks : (t : ℕ) (s : Sync) → total s + 1 < 2 ^ 32 → Turn s (lock_obj t s)
  acquires :
      (t : ℕ) (xs ys : List ℕ) (o : SyncObject) (s : Sync)
      → s.waiting ≡ xs ++ t ∷ ys
      → s.entry ≡ some o
      → o.locked ≡ false
      → Turn s (acquire t xs ys o s)
  settles :
      (t : ℕ) (o : SyncObject) (s : Sync)
      → s.entering ≡ some t
      → s.entry ≡ some o
      → Turn s (settle t o s)
  unlocks :
      (t : ℕ) (xs ys : List ℕ) (s : Sync) → s.holding ≡ xs ++ t ∷ ys → Turn s (unlock_obj xs ys s)

-- Any history of the threads at one address.
pub data Course : Sync → Type 0 where
  begins : Course unused
  goes_on : {s t : Sync} → Course s → Turn s t → Course t
