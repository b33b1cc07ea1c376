-- ===== src/Errors/Handles.antt =====
-- What the join handlers of src/utils.rs make of a finished task.
use p2pradio.Prelude.{◌≡◌, ◌↔◌, ◌⊎◌, Option, inl, inr, refl, none, some, ok, err}
use p2pradio.Errors.{
  Option, Foreign, AppError, TaskRet, Joined, task_panicked, task_exited, handle_to_main_handle,
  handle_loop_can_exit,
}

module _ (F : Foreign) where
  -- A task that runs until it is cancelled is passed on as cancelled exactly when it was; an error
  -- that is passed on is its panic, or its own error converted.
  pub handle_to_main_handle_lem :
      {E : Type 0} (into : E → AppError F) (joined : Joined F (TaskRet F E))
      → ((handle_to_main_handle F into joined ≡ none) ↔ (joined ≡ ok none))
        × ((e : AppError F)
            → handle_to_main_handle F into joined ≡ some (err e)
            → ((p : F.JoinError) × (joined ≡ err p) × (e ≡ task_panicked p))
              ⊎ ((x : E) × (joined ≡ ok (some (err x))) × (e ≡ into x)))
  unfolding handle_to_main_handle
  handle_to_main_handle_lem into (err p) = ((λ e. cc, λ e. cc), λ e same. inl (p, refl, cc))
  handle_to_main_handle_lem into (ok none) = ((λ e. refl, λ e. refl), λ e same. cc)
  handle_to_main_handle_lem into (ok (some (err x))) =
      ((λ e. cc, λ e. cc), λ e same. inr (x, refl, cc))
  handle_to_main_handle_lem into (ok (some (ok v))) = absurd v

  -- A loop that can exit is passed on as cancelled exactly when it was; an error that is passed on is
  -- its panic, or `TaskExited` where it came to its end.
  pub handle_loop_can_exit_lem :
      (joined : Joined F (Option (Unit {0})))
      → ((handle_loop_can_exit F joined ≡ none) ↔ (joined ≡ ok none))
        × ((e : AppError F)
            → handle_loop_can_exit F joined ≡ some (err e)
            → ((p : F.JoinError) × (joined ≡ err p) × (e ≡ task_panicked p))
              ⊎ ((joined ≡ ok (some tt)) × (e ≡ task_exited)))
  unfolding handle_loop_can_exit
  handle_loop_can_exit_lem (err p) = ((λ e. cc, λ e. cc), λ e same. inl (p, refl, cc))
  handle_loop_can_exit_lem (ok none) = ((λ e. refl, λ e. refl), λ e same. cc)
  handle_loop_can_exit_lem (ok (some tt)) = ((λ e. cc, λ e. cc), λ e same. inr (refl, cc))
