-- ===== src/Errors/Tests.antt =====
-- The join handlers of src/utils.rs on finished tasks.
use p2pradio.Prelude.{◌≡◌, refl, Option, some, err, ok}
use p2pradio.Errors.{
  AppError, TaskRet, Joined, RpcError, task_panicked, handle_to_main_handle, handle_loop_can_exit,
}
use p2pradio.Network.Tables.{texts}

-- a server that failed on a socket, with the error 13
abbrev failed : Joined texts (TaskRet texts (RpcError texts))
failed = ok (some (err (RpcError.io 13)))

passed_on :
    handle_to_main_handle texts AppError.rpc failed ≡ some (err (AppError.rpc (RpcError.io 13)))
unfolding handle_to_main_handle
passed_on = refl

abbrev panicked : Joined texts (Option (Unit {0}))
panicked = err 3

panic_passed_on : handle_loop_can_exit texts panicked ≡ some (err (task_panicked 3))
unfolding handle_loop_can_exit
panic_passed_on = refl
