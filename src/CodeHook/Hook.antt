-- ===== src/CodeHook/Hook.antt =====
-- src/CodeHook/cpuIA32.h and cpuIA32_HookSystem.cpp, `InstallHook`: a function is made to jump to a
-- proxy, and a thunk keeps what the jump overwrites. The calls of Windows are parameters.
pub mod Thunk
pub mod Installed
pub mod Ends
use giblet.Common.{
  ℕ, ◌+◌, Bool, true, false, ◌==◌, if◌then◌else◌, replicate, Bytes, codes, Outcome, returns, ◌>>=◌,
}
use giblet.CodeHook.Memory.{Memory, store, int_bytes}
use giblet.CodeHook.Relocate.{relocate_code}
use giblet.CodeHook.Assembler.{jump, jump_indirect}
use giblet.CodeHook.MemoryBlock.{Pages, MemoryBlock, memory_block, page_readwrite, lock, destroy}

-- `HOOK_ERROR`
pub data HookError : Type 0 where
  hook_success hook_nomodule hook_nofunc hook_norelocate hook_noredirect : HookError
  hook_corefailed hook_outofmemory : HookError

-- The text that `HookError` shows.
unfoldable pub error_msg : HookError → Bytes
error_msg hook_nomodule = codes "Unable to find DLL"
error_msg hook_nofunc = codes "The DLL does not contain the requested function"
error_msg hook_norelocate = codes "Unable to install hook stub"
error_msg hook_noredirect = codes "Unable to install hook proxy"
error_msg hook_corefailed = codes "An unexpected failure expected in the core integration system."
error_msg hook_outofmemory = codes "Unable to allocate memory for integration bridge"
error_msg hook_success = codes "Unknown."

-- How a hook ends: it is installed, with the address of the thunk's function; its target was not found;
-- or `HookError` has shown its message and ended the process.
pub data HookEnd : Type 0 where
  installed : ℕ → HookEnd
  not_found : HookError → HookEnd
  exits : HookError → HookEnd

-- What the code calls of Windows besides the calls of a `MemoryBlock`. A null pointer is 0.
pub record Windows (W : Type 0) : Type 0 where
  pub pages : Pages W
  pub virtual_alloc : ℕ → ℕ → ℕ → W → ℕ × W
  pub get_module_handle : Bytes → W → ℕ
  pub get_proc_address : ℕ → Bytes → W → ℕ

-- `THUNK_BUFFER_SIZE`
abbrev pub thunk_buffer_size : ℕ
thunk_buffer_size = 256

-- `PAGE_EXECUTE_READ` and `PAGE_EXECUTE_READWRITE`
abbrev page_execute_read : ℕ
page_execute_read = 32

abbrev page_execute_readwrite : ℕ
page_execute_readwrite = 64

-- `thunkFunctionPtr`, behind four pointers.
abbrev pub thunk_function : ℕ → ℕ
thunk_function buffer = buffer + 16

-- The thunk's two pointers.
abbrev pub write_pointers : ℕ → ℕ → Memory → Memory
write_pointers buffer proxy m =
    store (buffer + 4) (int_bytes 4 (thunk_function buffer)) (store buffer (int_bytes 4 proxy) m)

-- The jump behind the relocated code to the rest of the function.
abbrev pub close_thunk : ℕ → ℕ → ℕ × Memory → ℕ × Memory
close_thunk buffer proc (used, m) =
    if used == 0
    then (0, m)
    else (used + 5, (jump (proc + used) (m, thunk_function buffer + used)).0)

-- The thunk in a locked buffer, and how many bytes its function takes: 0 if the code was not relocated.
unfoldable pub write_thunk : ℕ → ℕ → ℕ → Memory → Outcome (ℕ × Memory)
write_thunk buffer proc proxy m =
    relocate_code (write_pointers buffer proxy m) (thunk_function buffer) proc 6 thunk_buffer_size
    >>= λ r. returns (close_thunk buffer proc r)

-- The jump to the proxy at the start of the function.
unfoldable pub redirect : ℕ → ℕ → Memory → Memory
redirect buffer proc m = (jump_indirect buffer (m, proc)).0

module _ {W : Type 0} (windows : Windows W) (proc proxy : ℕ) where
  -- The status, the memory and the system behind the block that writes the thunk.
  unfoldable pub lock_and_write : ℕ → Memory → W → Outcome (HookError × Memory × W)
  lock_and_write buffer m w =
      let (result, thunk_lock, w') = lock windows.pages page_readwrite (memory_block buffer) w in
      if result
      then (write_thunk buffer proc proxy m >>= λ (used, m'). returns (
        if used == 0 then hook_norelocate else hook_success,
        m',
        destroy windows.pages thunk_lock w',
      ))
      else returns (hook_corefailed, m, destroy windows.pages thunk_lock w')

  -- The block that redirects the function.
  unfoldable pub lock_and_redirect : ℕ → HookError × Memory × W → HookError × Memory × W
  lock_and_redirect buffer (hook_success, m, w) =
      let (result, proc_lock, w') = lock windows.pages page_readwrite (memory_block proc) w in
      if result
      then (hook_success, redirect buffer proc m, destroy windows.pages proc_lock w')
      else (hook_noredirect, m, destroy windows.pages proc_lock w')
  lock_and_redirect buffer (status, m, w) = (status, m, w)

  -- The end: a status other than success is shown, and the process ends.
  abbrev pub hook_end : ℕ → HookError → HookEnd
  hook_end buffer hook_success = installed (thunk_function buffer)
  hook_end buffer status = exits status

  -- Behind the block that writes the thunk.
  unfoldable pub finish_hook : ℕ → HookError × Memory × W → HookEnd × Memory × W
  finish_hook buffer written =
      let (status, m, w) = lock_and_redirect buffer written in
      (
        hook_end buffer status,
        m,
        (windows.virtual_alloc buffer thunk_buffer_size page_execute_read w).1,
      )

  -- `InstallHook` of a function's address.
  unfoldable pub install_hook : Memory → W → Outcome (HookEnd × Memory × W)
  install_hook m w =
      let (buffer, w') = windows.virtual_alloc 0 thunk_buffer_size page_execute_readwrite w in
      if buffer == 0
      then returns (exits hook_outofmemory, m, w')
      else (lock_and_write buffer (store buffer (replicate thunk_buffer_size 0) m) w' >>= λ written.
          returns (finish_hook buffer written))

-- `InstallHook` of a function that a module exports.
unfoldable pub install_hook_by_name :
    {W : Type 0} → Windows W → Bytes → Bytes → ℕ → Memory → W → Outcome (HookEnd × Memory × W)
install_hook_by_name windows module_name function_name proxy m w =
    let module_handle = windows.get_module_handle module_name w in
    let proc = windows.get_proc_address module_handle function_name w in
    if module_handle == 0
    then returns (not_found hook_nomodule, m, w)
    else if proc == 0
    then returns (not_found hook_nofunc, m, w)
    else install_hook windows proc proxy m w
