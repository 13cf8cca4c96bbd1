-- ===== src/Task/Loop.antt =====
-- What the loop of a task does with the messages it obtains, against a description of the messages
-- that it is to handle.
use mathlib.Core.List.{append-nil, append_assoc}
use yat.Common.{
  ◌≡◌, refl, sym, ◌∙◌, ap, Bool, true, false, ◌||◌, List, [], ◌∷◌, ◌++◌, Option, none, some,
  if◌then◌else◌, Bool-cases, inl, inr,
}
use yat.MessageQ.{Message}
use yat.Task.{Phase, starting, Task, Handled, is_init, is_exit, is_wakeup, with_held, handle}

-- The messages among the answers.
abbrev pub obtained : List (Option Message) → List Message
obtained [] = []
obtained (none ∷ answers) = obtained answers
obtained (some m ∷ answers) = m ∷ obtained answers

abbrev pub ordinary_of : List Message → List Message
ordinary_of [] = []
ordinary_of (m ∷ ms) =
    let rest = ordinary_of ms in if is_init m || is_wakeup m then rest else m ∷ rest

-- Up to the first TASK_EXIT, and with it.
abbrev pub until_exit : List Message → List Message
until_exit [] = []
until_exit (m ∷ ms) = let rest = until_exit ms in m ∷ (if is_exit m then [] else rest)

-- The messages to handle: the first TASK_INIT, then those that are neither TASK_INIT nor
-- TASK_WAKEUP, up to a TASK_EXIT.
abbrev pub accepted : List Message → List Message
accepted [] = []
accepted (m ∷ ms) =
    let rest = accepted ms in if is_init m then m ∷ until_exit (ordinary_of ms) else rest

-- The messages that the loop takes from the queue: all up to the first TASK_EXIT behind a TASK_INIT.
abbrev pub taken : List Message → List Message
taken [] = []
taken (m ∷ ms) = let rest = taken ms in m ∷ (if is_init m then until_exit ms else rest)

-- The message that the variable `msg` keeps from one turn of the first loop to the next.
abbrev pub held_in : Phase → List Message
held_in (starting (some m)) = m ∷ []
held_in p = []

abbrev pub has_exit : List Message → Bool
has_exit [] = false
has_exit (m ∷ ms) = is_exit m || has_exit ms

or_either : (a b c d : Bool) → d ≡ (a || b) → (d || c) ≡ (b || (a || c))
or_either true true c d h = rw h refl
or_either true false c d h = rw h refl
or_either false true c d h = rw h refl
or_either false false c d h = rw h refl

has_exit-append : (ms ns : List Message) → has_exit (ms ++ ns) ≡ (has_exit ms || has_exit ns)
has_exit-append [] ns = refl
has_exit-append (m ∷ ms) ns =
    let rest = has_exit-append ms ns in
    elim (Bool-cases (is_exit m)) [ inl e ↦ rw e refl | inr e ↦ rw e rest ]

module _ {ℓ} {A : Type ℓ} (handle_message : A → Message → Handled A) where
  -- The handler called on one message after the other.
  abbrev pub user_after : A → List Message → A
  user_after a [] = a
  user_after a (m ∷ ms) = user_after (handle_message a m).after ms

  -- The messages on which it threw.
  abbrev pub failures : A → List Message → List Message
  failures a [] = []
  failures a (m ∷ ms) =
      let rest = failures (handle_message a m).after ms in
      if (handle_message a m).threw then m ∷ rest else rest

  user_after-append :
      (ms ns : List Message) (a : A) → user_after a (ms ++ ns) ≡ user_after (user_after a ms) ns
  user_after-append [] ns a = refl
  user_after-append (m ∷ ms) ns a = user_after-append ms ns (handle_message a m).after

  failures-append :
      (ms ns : List Message) (a : A)
      → failures a (ms ++ ns) ≡ failures a ms ++ failures (user_after a ms) ns
  failures-append [] ns a = refl
  failures-append (m ∷ ms) ns a =
      let rest = failures-append ms ns (handle_message a m).after in
      elim (Bool-cases (handle_message a m).threw) [
        | inl e ↦ rw e (rw rest refl)
        | inr e ↦ rw e (rw rest refl)
      ]

  -- From `t` to `t'` the loop handled the messages `ms` and took the messages `ns`.
  pub record Serves (ms ns : List Message) (t t' : Task A) : Type ℓ where
    pub handled_eq : t'.handled ≡ t.handled ++ ms
    pub processed_eq : t'.processed ≡ t.processed ++ ms
    pub failed_eq : t'.failed ≡ t.failed ++ failures t.user ms
    pub user_eq : t'.user ≡ user_after t.user ms
    pub closed_eq : t'.closed ≡ (has_exit ms || t.closed)
    pub released_eq : t'.released ++ held_in t'.phase ≡ (t.released ++ held_in t.phase) ++ ns

  pub Serves-trans :
      {ms ns ms' ns' : List Message} {t t' t'' : Task A}
      → Serves ms ns t t'
      → Serves ms' ns' t' t''
      → Serves (ms ++ ms') (ns ++ ns') t t''
  Serves-trans {ms} {ns} {ms'} {ns'} {t} {t'} {t''} s s' = record {
    handled_eq = s'.handled_eq ∙ ap (λ l. l ++ ms') s.handled_eq ∙ append_assoc t.handled ms ms';
    processed_eq =
        s'.processed_eq ∙ ap (λ l. l ++ ms') s.processed_eq ∙ append_assoc t.processed ms ms';
    failed_eq = rw s'.failed_eq (
        rw s.failed_eq (
          rw s.user_eq (
            rw (failures-append ms ms' t.user)
              (append_assoc t.failed (failures t.user ms) (failures (user_after t.user ms) ms')))));
    user_eq =
        s'.user_eq ∙ ap (λ a. user_after a ms') s.user_eq ∙ sym (user_after-append ms ms' t.user);
    closed_eq =
        s'.closed_eq
        ∙ ap (λ c. has_exit ms' || c) s.closed_eq
        ∙ sym (
            or_either (has_exit ms) (has_exit ms') t.closed (has_exit (ms ++ ms'))
              (has_exit-append ms ms'));
    released_eq =
        s'.released_eq
        ∙ ap (λ l. l ++ ns') s.released_eq
        ∙ append_assoc (t.released ++ held_in t.phase) ns ns';
  }

  pub handle-Serves :
      (m : Message) (log : List Message) (t : Task A)
      → log ≡ t.released ++ held_in t.phase
      → Serves (m ∷ []) (m ∷ []) t (handle handle_message m (record t { released = log }))
  unfolding handle
  handle-Serves m log t h = record {
    handled_eq = refl;
    processed_eq = refl;
    failed_eq = elim (Bool-cases (handle_message t.user m).threw) [
      | inl e ↦ rw e refl
      | inr e ↦ rw e (sym (append-nil t.failed))
    ];
    user_eq = refl;
    closed_eq = elim (Bool-cases (is_exit m)) [ inl e ↦ rw e refl | inr e ↦ rw e refl ];
    released_eq = elim (Bool-cases (is_exit m)) [
      | inl e ↦ rw e (append-nil (log ++ m ∷ []) ∙ ap (λ l. l ++ m ∷ []) h)
      | inr e ↦ rw e (append-nil (log ++ m ∷ []) ∙ ap (λ l. l ++ m ∷ []) h)
    ];
  }

  -- Messages that are taken and not handled.
  pub passes :
      (ns : List Message) (t t' : Task A)
      → t'.handled ≡ t.handled
      → t'.processed ≡ t.processed
      → t'.failed ≡ t.failed
      → t'.user ≡ t.user
      → t'.closed ≡ t.closed
      → t'.released ++ held_in t'.phase ≡ (t.released ++ held_in t.phase) ++ ns
      → Serves [] ns t t'
  passes ns t t' h p f u c r = record {
    handled_eq = h ∙ sym (append-nil t.handled);
    processed_eq = p ∙ sym (append-nil t.processed);
    failed_eq = f ∙ sym (append-nil t.failed);
    user_eq = u;
    closed_eq = c;
    released_eq = r;
  }

  pub with_held_eq :
      (held : Option Message) (log : List Message)
      → with_held held log ≡ log ++ held_in (starting held)
  with_held_eq none log = sym (append-nil log)
  with_held_eq (some m) log = refl
