-- ===== src/Errors.antt =====
-- src/lib.rs, src/utils.rs and the error types of src/p2p/swarm.rs and src/rpc/mod.rs. The error
-- types of other crates are a parameter. `From` conversions, which `?` and `into` insert, are the
-- constructors.
pub mod Handles
mod Tests
use Prim.Native.String.{String}
use p2pradio.Prelude.{Option, none, some, Result, ok, err}

-- The errors of other crates.
pub record Foreign : Type 1 where
  pub IoError : Type 0
  pub RegisterMethodError : Type 0
  pub PublishError : Type 0
  pub SubscriptionError : Type 0
  pub JoinError : Type 0
  pub BehaviourBuilderError : Type 0
  pub AnyhowError : Type 0
  -- the macro `anyhow!` on a text
  pub new_anyhow : String → AnyhowError

module _ (F : Foreign) where
  open F use {
    IoError, RegisterMethodError, PublishError, SubscriptionError, JoinError, BehaviourBuilderError,
    AnyhowError,
  }

  pub data TaskError : Type 0 where
    stopped : TaskError
    panic : JoinError → TaskError

  pub data RpcError : Type 0 where
    rpc : RegisterMethodError → RpcError
    io : IoError → RpcError

  pub data GossipError : Type 0 where
    publish_error : PublishError → GossipError
    subscription_error : SubscriptionError → GossipError
    already_subscribed : GossipError

  pub data AppError : Type 0 where
    io : IoError → AppError
    other : String → AppError
    rpc : RpcError → AppError
    publish_error : PublishError → AppError
    gossip_error : GossipError → AppError
    task_err : String → TaskError → AppError
    task_panicked : JoinError → AppError
    task_exited : AppError
    behaviour_builder : BehaviourBuilderError → AppError
    anyhow : AnyhowError → AppError
    unreachable : ⊥ → AppError

  -- `TaskRet<E>`: `None` is a cancelled task; `Infallible` has no value
  abbrev pub TaskRet : Type 0 → Type 0
  TaskRet E = Option (Result ⊥ E)

  -- what awaiting a spawned task returns
  abbrev pub Joined : Type 0 → Type 0
  Joined A = Result A JoinError

  unfoldable pub handle_to_main_handle :
      {E : Type 0} → (E → AppError) → Joined (TaskRet E) → TaskRet AppError
  handle_to_main_handle into (err e) = some (err (task_panicked e))
  handle_to_main_handle into (ok none) = none
  handle_to_main_handle into (ok (some (err e))) = some (err (into e))
  handle_to_main_handle into (ok (some (ok v))) = absurd v

  unfoldable pub handle_loop_cannot_fail_handle : Joined (TaskRet ⊥) → TaskRet AppError
  handle_loop_cannot_fail_handle (err e) = some (err (task_panicked e))
  handle_loop_cannot_fail_handle (ok none) = none
  handle_loop_cannot_fail_handle (ok (some (err e))) = absurd e
  handle_loop_cannot_fail_handle (ok (some (ok v))) = absurd v

  unfoldable pub handle_loop_can_exit : Joined (Option (Unit {0})) → TaskRet AppError
  handle_loop_can_exit (err e) = some (err (task_panicked e))
  handle_loop_can_exit (ok none) = none
  handle_loop_can_exit (ok (some u)) = some (err task_exited)
