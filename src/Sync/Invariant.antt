-- ===== src/Sync/Invariant.antt =====
-- What stays true of the entry of an address: each operation preserves it.
use mathlib.Core.Path.{subst}
use yat.Common.{
  ℕ, ◌+◌, ◌<◌, ◌^◌, ◌≡◌, refl, sym, ◌∙◌, ap, Bool, true, false, List, [], ◌∷◌, ◌++◌, Option, none,
  some, ◌==◌, ==_iff, Option-cases, sub32, arith, length, length-append, All, All-append, All-split,
  Bool-cases, inl, inr,
}
use yat.Sync.{
  SyncObject, Sync, is_owner, count_lock, count_thread, lock_with, acquire, settle, leave_map,
  unlock_entry, unlock_obj, count_of, total,
}

abbrev pub is_some : Option ℕ → Bool
is_some none = false
is_some (some t) = true

-- With an owner all locks are its own; without one there are none, and the mutex is locked only for
-- the thread that is about to become the owner.
abbrev pub Owned : Option ℕ → Bool → Option ℕ → List ℕ → Type 0
Owned (some u) locked entering holding =
    All (λ t. t ≡ u) holding × (0 < length holding) × (entering ≡ none) × (locked ≡ true)
Owned none locked entering holding = (holding ≡ []) × (locked ≡ is_some entering)

abbrev pub Agrees : Option SyncObject → Sync → Type 0
Agrees none s = total s ≡ 0
Agrees (some o) s =
    (o.lock_count ≡ total s)
    × (0 < total s)
    × (total s < 2 ^ 32)
    × (o.thread_count ≡ length s.holding)
    × Owned o.owner o.locked s.entering s.holding

abbrev pub IsValid : Sync → Type 0
IsValid s = Agrees s.entry s

pub nil_of : (xs : List ℕ) → length xs ≡ 0 → xs ≡ []
nil_of [] h = refl
nil_of (x ∷ xs) h = absurd (omega (arith, h))

none_of : (o : Option ℕ) → count_of o ≡ 0 → o ≡ none
none_of none h = refl
none_of (some t) h = absurd (omega (arith, h))

not_some : (o : Option ℕ) → is_some o ≡ false → o ≡ none
not_some none h = refl
not_some (some t) h = cc

pub Agrees→Owned :
    (o : SyncObject) (s : Sync) → Agrees (some o) s → Owned o.owner o.locked s.entering s.holding
Agrees→Owned o s v = v.4

pub lock_new-IsValid : (t : ℕ) (s : Sync) → total s ≡ 0 → IsValid (lock_with t none s)
unfolding lock_with
lock_new-IsValid t s v =
    let idle : s.holding ≡ [] = nil_of s.holding (omega (arith, v)) in
    let nobody : s.entering ≡ none = none_of s.entering (omega (arith, v)) in
    (
      omega (arith, v),
      omega (arith, v),
      omega (arith, v),
      omega (arith, v),
      (idle, ap is_some (sym nobody)),
    )

module _ (t : ℕ) (o : SyncObject) (s : Sync) (v : Agrees (some o) s) where
  module _ (room : total s + 1 < 2 ^ 32) where
    lock_again-IsValid :
        is_owner t o.owner ≡ true
        → IsValid (record s { entry = some (count_lock (count_thread o)); holding = t ∷ s.holding })
    lock_again-IsValid e = elim (Option-cases o.owner) [
      | inl h ↦ cc (rw h at e)
      | inr (u, h) ↦
          let own = subst (λ w. Owned w o.locked s.entering s.holding) h (Agrees→Owned o s v) in
          let same : t ≡ u = sym ((==_iff u t).0 (ap (is_owner t) (sym h) ∙ e)) in
          (
            omega (arith, v.0, room),
            omega arith,
            omega (arith, room),
            omega (arith, v.3, room),
            subst (λ w. Owned w o.locked s.entering (t ∷ s.holding)) (sym h)
                ((same, own.0), omega arith, own.2, own.3),
          )
    ]

    lock_wait-IsValid : IsValid (record s { entry = some (count_lock o); waiting = t ∷ s.waiting })
    lock_wait-IsValid =
        (omega (arith, v.0, room), omega arith, omega (arith, room), v.3, Agrees→Owned o s v)

    pub lock-IsValid : IsValid (lock_with t (some o) s)
    unfolding lock_with
    lock-IsValid = elim (Bool-cases (is_owner t o.owner)) [
      | inl e ↦ rw e (lock_again-IsValid e)
      | inr e ↦ rw e lock_wait-IsValid
    ]

  unlocked-Owned : o.locked ≡ false → (o.owner ≡ none) × (s.holding ≡ []) × (s.entering ≡ none)
  unlocked-Owned free = elim (Option-cases o.owner) [
    | inl h ↦
        let own = subst (λ w. Owned w o.locked s.entering s.holding) h (Agrees→Owned o s v) in
        (h, own.0, not_some s.entering (sym own.1 ∙ free))
    | inr (u, h) ↦
        let own = subst (λ w. Owned w o.locked s.entering s.holding) h (Agrees→Owned o s v) in
        let locked = own.3 in cc
  ]

  pub acquire-IsValid :
      (xs ys : List ℕ) → s.waiting ≡ xs ++ t ∷ ys → o.locked ≡ false → IsValid (acquire t xs ys o s)
  acquire-IsValid xs ys w free =
      let (unowned, idle, nobody) = unlocked-Owned free in
      let moved : total (acquire t xs ys o s) ≡ total s =
        omega (
          arith,
          ap length w,
          length-append xs (t ∷ ys),
          length-append xs ys,
          ap count_of nobody,
        ) in
      (
        v.0 ∙ sym moved,
        omega (arith, v.1, moved),
        omega (arith, v.2, moved),
        v.3,
        subst (λ w. Owned w true (some t) s.holding) (sym unowned) (idle, refl),
      )

  pub settle-IsValid : s.entering ≡ some t → IsValid (settle t o s)
  settle-IsValid e = elim (Option-cases o.owner) [
    | inl h ↦
        let own = subst (λ w. Owned w o.locked s.entering s.holding) h (Agrees→Owned o s v) in
        let one = ap count_of e in
        (
          omega (arith, v.0, one),
          omega arith,
          omega (arith, v.2, one),
          omega (arith, v.2, v.3, one),
          (
            (refl, subst (All (λ x. x ≡ t)) (sym own.0) tt),
            omega arith,
            refl,
            own.1 ∙ ap is_some e,
          ),
        )
    | inr (u, h) ↦
        let own = subst (λ w. Owned w o.locked s.entering s.holding) h (Agrees→Owned o s v) in
        let nobody = own.2 in cc
  ]

  module _ (xs ys : List ℕ) (held : s.holding ≡ xs ++ t ∷ ys) where
    abbrev rest : Sync
    rest = record s { holding = xs ++ ys }

    fewer : length s.holding ≡ length (xs ++ ys) + 1
    fewer = omega (arith, ap length held, length-append xs (t ∷ ys), length-append xs ys)

    held-Owned :
        (u : ℕ) × (o.owner ≡ some u)
        × All (λ x. x ≡ u) (xs ++ ys)
        × (s.entering ≡ none)
        × (o.locked ≡ true)
    held-Owned = elim (Option-cases o.owner) [
      | inl h ↦
          let own = subst (λ w. Owned w o.locked s.entering s.holding) h (Agrees→Owned o s v) in
          absurd (omega (arith, ap length own.0, fewer))
      | inr (u, h) ↦
          let own = subst (λ w. Owned w o.locked s.entering s.holding) h (Agrees→Owned o s v) in
          let both = All-split (λ x. x ≡ u) xs (t ∷ ys) (subst (All (λ x. x ≡ u)) held own.0) in
          (u, h, All-append (λ x. x ≡ u) xs ys both.0 (both.1).1, own.2, own.3)
    ]

    locks_left : sub32 o.lock_count 1 ≡ total rest
    locks_left = omega (arith, v.0, v.1, v.2, fewer)

    threads_left : sub32 o.thread_count 1 ≡ length (xs ++ ys)
    threads_left = omega (arith, v.2, v.3, fewer)

    abbrev left_entry : Option ℕ → Bool → SyncObject
    left_entry w b = record {
      thread_count = sub32 o.thread_count 1;
      lock_count = sub32 o.lock_count 1;
      owner = w;
      locked = b;
    }

    -- The entry is dropped with the last lock.
    leave_map-IsValid :
        (w : Option ℕ) (b : Bool)
        → Owned w b s.entering (xs ++ ys)
        → Agrees (leave_map (left_entry w b)) (unlock_obj xs ys s)
    leave_map-IsValid w b own = elim (Bool-cases (sub32 o.lock_count 1 == 0)) [
      | inl e ↦ rw e (sym locks_left ∙ (==_iff (sub32 o.lock_count 1) 0).0 e)
      | inr e ↦
          let some_left : 0 < total rest = ground (arith, e, locks_left) in
          rw e (locks_left, some_left, omega (arith, v.2, fewer), threads_left, own)
    ]

    pub unlock-IsValid : Agrees (unlock_entry (some o)) (unlock_obj xs ys s)
    unfolding unlock_entry
    unlock-IsValid =
        let (u, owned, all_its, nobody, locked) = held-Owned in
        elim (Bool-cases (sub32 o.thread_count 1 == 0)) [
          | inl e ↦
              let none_left : xs ++ ys ≡ [] =
                nil_of (xs ++ ys) (sym threads_left ∙ (==_iff (sub32 o.thread_count 1) 0).0 e) in
              rw e (leave_map-IsValid none false (none_left, sym (ap is_some nobody)))
          | inr e ↦
              let some_left : 0 < length (xs ++ ys) = ground (arith, e, threads_left) in
              rw e (
                leave_map-IsValid o.owner o.locked (
                  subst (λ w. Owned w o.locked s.entering (xs ++ ys)) (sym owned)
                    (all_its, some_left, nobody, locked)))
        ]
