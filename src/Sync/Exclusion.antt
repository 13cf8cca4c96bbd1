-- ===== src/Sync/Exclusion.antt =====
-- Mutual exclusion at an address, and what becomes of its entry.
use mathlib.Core.Path.{subst}
use yat.Common.{
  ℕ, ◌+◌, ◌<◌, ◌^◌, ◌≡◌, ◌⊎◌, ◌↔◌, refl, sym, ◌∙◌, ap, Bool, false, List, [], ◌∷◌, ◌++◌, Option,
  none, some, Option-cases, arith, length, length-append, All, inl, inr,
}
use yat.Sync.{
  SyncObject, Sync, lock_with, lock_obj, unlock_entry, unlock_obj, total, Turn, locks, acquires,
  settles, unlocks, Course, begins, goes_on,
}
use yat.Sync.Invariant.{
  nil_of, Agrees→Owned, lock_new-IsValid, acquire-IsValid, settle-IsValid, lock-IsValid,
  unlock-IsValid, is_some, Owned, Agrees, IsValid,
}

module _ (t : ℕ) (s : Sync) (v : IsValid s) where
  lock_obj-IsValid : total s + 1 < 2 ^ 32 → IsValid (lock_obj t s)
  lock_obj-IsValid room = elim (Option-cases s.entry) [
    | inl h ↦
        subst (λ e. IsValid (lock_with t e s)) (sym h)
          (lock_new-IsValid t s (subst (λ e. Agrees e s) h v))
    | inr (o, h) ↦
        subst (λ e. IsValid (lock_with t e s)) (sym h)
          (lock-IsValid t o s (subst (λ e. Agrees e s) h v) room)
  ]

  unlock_obj-IsValid : (xs ys : List ℕ) → s.holding ≡ xs ++ t ∷ ys → IsValid (unlock_obj xs ys s)
  unlock_obj-IsValid xs ys held = elim (Option-cases s.entry) [
    | inl h ↦
        let idle : total s ≡ 0 = subst (λ e. Agrees e s) h v in
        absurd (omega (arith, idle, ap length held, length-append xs (t ∷ ys)))
    | inr (o, h) ↦
        subst (λ e. Agrees (unlock_entry e) (unlock_obj xs ys s)) (sym h)
          (unlock-IsValid t o s (subst (λ e. Agrees e s) h v) xs ys held)
  ]

Turn-IsValid : {s t : Sync} → Turn s t → IsValid s → IsValid t
Turn-IsValid (locks t s room) v = lock_obj-IsValid t s v room
Turn-IsValid (acquires t xs ys o s w e free) v =
    acquire-IsValid t o s (subst (λ e. Agrees e s) e v) xs ys w free
Turn-IsValid (settles t o s n e) v = settle-IsValid t o s (subst (λ e. Agrees e s) e v) n
Turn-IsValid (unlocks t xs ys s held) v = unlock_obj-IsValid t s v xs ys held

Course-IsValid : (s : Sync) → Course s → IsValid s
Course-IsValid s begins = refl
Course-IsValid s (goes_on {s = r} c m) = Turn-IsValid m (Course-IsValid r c)

-- One owner at a time: no two threads hold locks, and no mutex is taken beside them.
abbrev pub Exclusive : Sync → Type 0
Exclusive s = (s.holding ≡ []) ⊎ ((u : ℕ) × All (λ t. t ≡ u) s.holding × (s.entering ≡ none))

Owned→Exclusive :
    (w : Option ℕ) (b : Bool) (s : Sync) → Owned w b s.entering s.holding → Exclusive s
Owned→Exclusive none b s own = inl own.0
Owned→Exclusive (some u) b s own = inr (u, own.0, own.2)

Agrees→Exclusive : (e : Option SyncObject) (s : Sync) → Agrees e s → Exclusive s
Agrees→Exclusive none s v = inl (nil_of s.holding (omega (arith, v)))
Agrees→Exclusive (some o) s v = Owned→Exclusive o.owner o.locked s (Agrees→Owned o s v)

entry_iff : (e : Option SyncObject) (s : Sync) → Agrees e s → (e ≡ none) ↔ (total s ≡ 0)
entry_iff none s v = ((λ h. v), λ h. refl)
entry_iff (some o) s v = ((λ h. cc), λ h. absurd (omega (arith, h, v.1)))

unowned-locked :
    (w : Option ℕ) (b : Bool) (n : Option ℕ) (xs : List ℕ)
    → Owned w b n xs
    → xs ≡ []
    → n ≡ none
    → b ≡ false
unowned-locked none b n xs own idle nobody = own.1 ∙ ap is_some nobody
unowned-locked (some u) b n xs own idle nobody = absurd (omega (arith, own.1, ap length idle))

idle-unlocked :
    (o : SyncObject) (s : Sync)
    → Agrees (some o) s
    → s.holding ≡ []
    → s.entering ≡ none
    → o.locked ≡ false
idle-unlocked o s v idle nobody =
    unowned-locked o.owner o.locked s.entering s.holding (Agrees→Owned o s v) idle nobody

-- In whatever order threads lock and unlock an address, each thread as often as it likes, while the
-- locks held or asked for stay below 2^32: all locks held are one thread's, and the mutex is not taken
-- for another one beside it; the map has an entry exactly while some lock is held or asked for, so none
-- is deleted that a thread still waits at; and when no lock is held and the mutex is not taken
-- for anyone, the mutex of the entry is free.
pub excludes :
    (s : Sync)
    → Course s
    → Exclusive s
      × ((s.entry ≡ none) ↔ (total s ≡ 0))
      × ((o : SyncObject)
          → s.entry ≡ some o
          → s.holding ≡ []
          → s.entering ≡ none
          → o.locked ≡ false)
excludes s c =
    let v = Course-IsValid s c in
    (
      Agrees→Exclusive s.entry s v,
      entry_iff s.entry s v,
      λ o h idle nobody. idle-unlocked o s (subst (λ e. Agrees e s) h v) idle nobody,
    )
