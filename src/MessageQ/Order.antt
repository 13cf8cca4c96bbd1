-- ===== src/MessageQ/Order.antt =====
-- The order of the pending messages: MessageQ::insert_i and insert_msg_criterion.
-- The abstract queue keeps a FIFO for each priority; `of_priority p` is the FIFO of `p`.
use mathlib.Core.List.{append-nil, Perm}
use mathlib.Core.List.Perm
use yat.Common.{
  ℕ, ◌≤◌, ◌<◌, ◌≡◌, refl, List, [], ◌∷◌, ◌++◌, ◌==◌, if◌then◌else◌, arith, All, inl, inr,
  Bool-cases,
}
use yat.MessageQ.{Message, insert_msg_criterion, insert_at_upper_bound, insert_msg}

abbrev pub AtMost : ℕ → List Message → Type 0
AtMost p = All (λ x. x.priority ≤ p)

abbrev pub IsSorted : List Message → Type 0
IsSorted [] = Unit {0}
IsSorted (m ∷ ms) = AtMost m.priority ms × IsSorted ms

unfoldable pub of_priority : ℕ → List Message → List Message
of_priority p [] = []
of_priority p (m ∷ ms) = if m.priority == p then m ∷ of_priority p ms else of_priority p ms

AtMost-mono : (p q : ℕ) (ms : List Message) → p ≤ q → AtMost p ms → AtMost q ms
AtMost-mono p q [] h a = tt
AtMost-mono p q (m ∷ ms) h a = (omega arith, AtMost-mono p q ms h a.1)

AtMost-insert :
    (p : ℕ) (m : Message) (ms : List Message)
    → m.priority ≤ p
    → AtMost p ms
    → AtMost p (insert_at_upper_bound m ms)
unfolding insert_at_upper_bound
AtMost-insert p m [] h a = (h, tt)
AtMost-insert p m (x ∷ xs) h a = ground (arith, AtMost-insert p m xs)

-- Insertion keeps the list sorted, highest priority first.
pub insert-IsSorted :
    (m : Message) (ms : List Message) → IsSorted ms → IsSorted (insert_at_upper_bound m ms)
unfolding insert_at_upper_bound
insert-IsSorted m [] s = (tt, tt)
insert-IsSorted m (x ∷ xs) s = ground (
  arith,
  AtMost-mono x.priority m.priority xs,
  AtMost-insert x.priority m xs,
  insert-IsSorted m xs,
)

of_priority_above : (p q : ℕ) (ms : List Message) → q < p → AtMost q ms → of_priority p ms ≡ []
unfolding of_priority
of_priority_above p q [] h a = refl
of_priority_above p q (m ∷ ms) h a = ground (arith, of_priority_above p q ms)

pub of_priority-append :
    (p : ℕ) (xs ys : List Message) → of_priority p (xs ++ ys) ≡ of_priority p xs ++ of_priority p ys
unfolding of_priority
of_priority-append p [] ys = refl
of_priority-append p (x ∷ xs) ys = ground (arith, of_priority-append p xs ys)

-- In a sorted list the message goes behind all those of its own priority, and between the other
-- priorities nothing moves.
pub of_priority-insert :
    (p : ℕ) (m : Message) (ms : List Message)
    → IsSorted ms
    → of_priority p (insert_at_upper_bound m ms) ≡ of_priority p ms ++ of_priority p (m ∷ [])
unfolding insert_at_upper_bound of_priority
of_priority-insert p m [] s = refl
of_priority-insert p m (x ∷ xs) s = ground (
  arith,
  of_priority-insert p m xs,
  of_priority_above m.priority x.priority xs,
  append-nil (of_priority p (x ∷ xs)),
)

pub insert-perm : (m : Message) (ms : List Message) → Perm (insert_at_upper_bound m ms) (m ∷ ms)
unfolding insert_at_upper_bound
insert-perm m [] = Perm.refl (m ∷ [])
insert-perm m (x ∷ xs) = elim (Bool-cases (insert_msg_criterion m x)) [
  | inl e ↦ rw e (Perm.refl (m ∷ x ∷ xs))
  | inr e ↦ rw e (Perm.trans (Perm.cons x (insert-perm m xs)) (Perm.swap m x xs))
]

-- The branch of `insert_i` for an empty queue does what the other would do.
pub insert_msg-eq-insert :
    (m : Message) (ms : List Message) → insert_msg m ms ≡ insert_at_upper_bound m ms
unfolding insert_msg insert_at_upper_bound
insert_msg-eq-insert m [] = refl
insert_msg-eq-insert m (x ∷ xs) = refl

pub insert_msg-IsSorted :
    (m : Message) (ms : List Message) → IsSorted ms → IsSorted (insert_msg m ms)
insert_msg-IsSorted m ms s = rw (insert_msg-eq-insert m ms) (insert-IsSorted m ms s)
