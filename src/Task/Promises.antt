-- ===== src/Task/Promises.antt =====
-- The messages that the loop of a task handles, and what becomes of the others.
use mathlib.Core.List.{append-nil}
use yat.Common.{
  ◌≡◌, refl, sym, ◌∙◌, ap, Bool, true, false, ◌||◌, List, [], ◌∷◌, ◌++◌, Option, none, some,
  if◌then◌else◌, Bool-cases, inl, inr, arith,
}
use yat.MessageQ.{Message}
use yat.Task.{
  Phase, starting, working, finished, Task, started, Handled, is_init, is_exit, is_wakeup,
  with_held, release_held, handle, step_in, step, run_undetached,
}
use yat.Task.Loop.{
  has_exit, obtained, ordinary_of, until_exit, accepted, taken, held_in, user_after, failures,
  Serves, Serves-trans, handle-Serves, passes, with_held_eq,
}

module _ {ℓ} {A : Type ℓ} (handle_message : A → Message → Handled A) where
  step_eq :
      (p : Phase) (r : Option Message) (t : Task A)
      → t.phase ≡ p
      → step handle_message r t ≡ step_in handle_message p r t
  unfolding step
  step_eq p r t h = ap (λ q. step_in handle_message q r t) h

  finished_run :
      (answers : List (Option Message)) (t : Task A)
      → t.phase ≡ finished
      → run_undetached handle_message answers t ≡ t
  unfolding run_undetached step_in
  finished_run [] t h = refl
  finished_run (r ∷ answers) t h = rw (step_eq finished r t h) (finished_run answers t h)

  nothing : (t : Task A) → Serves handle_message [] [] t t
  nothing t =
      passes handle_message [] t t refl refl refl refl refl
        (sym (append-nil (t.released ++ held_in t.phase)))

  -- The main loop on a message that it is not to handle.
  skip :
      (m : Message) (t : Task A)
      → t.phase ≡ working
      → (is_init m || is_wakeup m) ≡ true
      → step handle_message (some m) t ≡ release_held (some m) t
  unfolding step_in
  skip m t h e = step_eq working (some m) t h ∙ rw e refl

  skip-Serves :
      (m : Message) (t : Task A)
      → t.phase ≡ working
      → Serves handle_message [] (m ∷ []) t (release_held (some m) t)
  skip-Serves m t h =
      passes handle_message (m ∷ []) t (release_held (some m) t) refl refl refl refl refl (
        ap (λ p. (t.released ++ m ∷ []) ++ held_in p) h
        ∙ append-nil (t.released ++ m ∷ [])
        ∙ ap (λ l. l ++ m ∷ []) (sym (ap (λ p. t.released ++ held_in p) h ∙ append-nil t.released)))

  serve :
      (m : Message) (t : Task A)
      → t.phase ≡ working
      → (is_init m || is_wakeup m) ≡ false
      → step handle_message (some m) t ≡ handle handle_message m t
  unfolding step_in
  serve m t h e = step_eq working (some m) t h ∙ rw e refl

  serve-Serves :
      (m : Message) (t : Task A)
      → t.phase ≡ working
      → Serves handle_message (m ∷ []) (m ∷ []) t (handle handle_message m t)
  serve-Serves m t h =
      handle-Serves handle_message m t.released t
        (sym (ap (λ p. t.released ++ held_in p) h ∙ append-nil t.released))

  -- Behind a message that was handled the loop ends or goes on.
  phase_after :
      (m : Message) (t : Task A)
      → (handle handle_message m t).phase ≡ (if is_exit m then finished else working)
  unfolding handle
  phase_after m t = refl

  -- The rest of a run behind a message that was handled.
  goes_on :
      (m : Message) (answers : List (Option Message)) (t : Task A) (ms ns : List Message)
      → ((handle handle_message m t).phase ≡ working
          → Serves handle_message ms ns
              (handle handle_message m t)
              (run_undetached handle_message answers (handle handle_message m t)))
      → Serves handle_message
          (if is_exit m then [] else ms)
          (if is_exit m then [] else ns)
          (handle handle_message m t)
          (run_undetached handle_message answers (handle handle_message m t))
  goes_on m answers t ms ns rest = elim (Bool-cases (is_exit m)) [
    | inl e ↦ rw e (
        rw (finished_run answers (handle handle_message m t) (phase_after m t ∙ rw e refl))
          (nothing (handle handle_message m t)))
    | inr e ↦ rw e (rest (phase_after m t ∙ rw e refl))
  ]

  no_exit : (m : Message) → (is_init m || is_wakeup m) ≡ true → is_exit m ≡ false
  no_exit m h = ground arith

  working_run :
      (answers : List (Option Message)) (t : Task A)
      → t.phase ≡ working
      → Serves handle_message
          (until_exit (ordinary_of (obtained answers)))
          (until_exit (obtained answers))
          t
          (run_undetached handle_message answers t)
  unfolding run_undetached step_in
  working_run [] t h = nothing t
  working_run (none ∷ answers) t h = rw (step_eq working none t h) (working_run answers t h)
  working_run (some m ∷ answers) t h = elim (Bool-cases (is_init m || is_wakeup m)) [
    | inl e ↦ rw (skip m t h e) (
        rw e (
          rw (no_exit m e) (
            Serves-trans handle_message (skip-Serves m t h)
              (working_run answers (release_held (some m) t) h))))
    | inr e ↦ rw (serve m t h e) (
        rw e (
          Serves-trans handle_message (serve-Serves m t h) (
            goes_on m answers t (until_exit (ordinary_of (obtained answers)))
              (until_exit (obtained answers)) (working_run answers (handle handle_message m t)))))
  ]

  held_moves :
      (held r : Option Message) (log : List Message)
      → with_held held log ++ held_in (starting r)
        ≡ (log ++ held_in (starting held)) ++ obtained (r ∷ [])
  held_moves held none log = ap (λ l. l ++ []) (with_held_eq handle_message held log)
  held_moves held (some m) log = ap (λ l. l ++ m ∷ []) (with_held_eq handle_message held log)

  -- The first loop on an answer: what it held is released, and the message is held.
  abbrev hold : Option Message → Option Message → Task A → Task A
  hold held r t = record (release_held held t) { phase = starting r }

  hold-Serves :
      (held r : Option Message) (t : Task A)
      → t.phase ≡ starting held
      → Serves handle_message [] (obtained (r ∷ [])) t (hold held r t)
  hold-Serves held r t h =
      passes handle_message (obtained (r ∷ [])) t (hold held r t) refl refl refl refl refl (
        held_moves held r t.released
        ∙ ap (λ p. (t.released ++ held_in p) ++ obtained (r ∷ [])) (sym h))

  init-Serves :
      (m : Message) (held : Option Message) (t : Task A)
      → t.phase ≡ starting held
      → Serves handle_message (m ∷ []) (m ∷ []) t (handle handle_message m (release_held held t))
  init-Serves m held t h =
      handle-Serves handle_message m (with_held held t.released) t
        (with_held_eq handle_message held t.released ∙ ap (λ p. t.released ++ held_in p) (sym h))

  init_no_exit : (m : Message) → is_init m ≡ true → is_exit m ≡ false
  init_no_exit m h = ground arith

  or_false : (b : Bool) → (b || false) ≡ b
  or_false true = refl
  or_false false = refl

  starting_run :
      (answers : List (Option Message)) (held : Option Message) (t : Task A)
      → t.phase ≡ starting held
      → Serves handle_message
          (accepted (obtained answers))
          (taken (obtained answers))
          t
          (run_undetached handle_message answers t)
  unfolding run_undetached step_in
  starting_run [] held t h = nothing t
  starting_run (none ∷ answers) held t h = rw (step_eq (starting held) none t h) (
      Serves-trans handle_message (hold-Serves held none t h)
        (starting_run answers none (hold held none t) refl))
  starting_run (some m ∷ answers) held t h = elim (Bool-cases (is_init m)) [
    | inl e ↦ rw (step_eq (starting held) (some m) t h) (
        rw e (
          Serves-trans handle_message (init-Serves m held t h) (
            working_run answers (handle handle_message m (release_held held t))
              (phase_after m (release_held held t) ∙ rw (init_no_exit m e) refl))))
    | inr e ↦ rw (step_eq (starting held) (some m) t h) (
        rw e (
          Serves-trans handle_message (hold-Serves held (some m) t h)
            (starting_run answers (some m) (hold held (some m) t) refl)))
  ]

  -- Whatever the handler does and throws, the loop calls it on the first TASK_INIT and then on the
  -- messages that are neither TASK_INIT nor TASK_WAKEUP, in the order in which it obtains them, up
  -- to the first TASK_EXIT that it handles, and on no other message; these are the messages that
  -- it marks as processed, the ones on which the handler threw are marked as failed, and the queue
  -- is closed if one of them is a TASK_EXIT, and only then.
  pub run-handled :
      (a : A) (answers : List (Option Message))
      → let t = run_undetached handle_message answers (started a) in
        let ms = accepted (obtained answers) in
        (t.handled ≡ ms)
        × (t.processed ≡ ms)
        × (t.failed ≡ failures handle_message a ms)
        × (t.user ≡ user_after handle_message a ms)
        × (t.closed ≡ has_exit ms)
  run-handled a answers =
      let s = starting_run answers none (started a) refl in
      (
        s.handled_eq,
        s.processed_eq,
        s.failed_eq,
        s.user_eq,
        s.closed_eq ∙ or_false (has_exit (accepted (obtained answers))),
      )

  -- The loop releases each message that it takes from the queue exactly once and in the order in
  -- which it takes them, apart from the one that it still holds before TASK_INIT; it takes all that
  -- there are up to the first TASK_EXIT behind a TASK_INIT, and none behind that.
  pub run-released :
      (a : A) (answers : List (Option Message))
      → let t = run_undetached handle_message answers (started a) in
        t.released ++ held_in t.phase ≡ taken (obtained answers)
  run-released a answers = (starting_run answers none (started a) refl).released_eq
