-- ===== src/Patch.antt =====
-- YIMPatch: the library that is loaded into the client, and the proxies that its hooks lead to. The
-- functions that are hooked are parameters of their proxies; the text that a proxy logs is left out.
pub mod Redirect
pub mod Flat
use giblet.Common.{
  ℕ, ◌+◌, ◌*◌, Bool, true, false, not, ◌&&◌, ◌||◌, ◌==◌, if◌then◌else◌, List, [], ◌∷◌, ◌++◌, Bytes,
  codes, equals, length, Outcome, returns, ◌>>=◌,
}
use giblet.CodeHook.Memory.{Memory, store}
use giblet.CodeHook.MemoryBlock.{Pages, page_readwrite}
use giblet.CodeHook.Hook.{
  HookError, HookEnd, installed, not_found, exits, Windows, install_hook_by_name,
}

-- `sockaddr_in`: the port as in memory, the bytes of the address, and what is behind them.
pub record InternetAddress : Type 0 where
  pub port : ℕ
  pub b1 : ℕ
  pub b2 : ℕ
  pub b3 : ℕ
  pub b4 : ℕ
  pub zeros : Bytes

-- `sockaddr`, by its family.
pub data SocketAddress : Type 0 where
  inet : InternetAddress → SocketAddress
  other_family : ℕ → Bytes → SocketAddress

-- `ntohl(s_addr)`
abbrev pub address_number : InternetAddress → ℕ
address_number a = ((a.b1 * 256 + a.b2) * 256 + a.b3) * 256 + a.b4

-- `INADDR_LOOPBACK`
abbrev inaddr_loopback : ℕ
inaddr_loopback = 0x7f000001

-- The address that `proxy_connect` connects to.
unfoldable pub redirect_address : InternetAddress → InternetAddress
redirect_address a =
    if not (inaddr_loopback == address_number a)
      && (a.b1 == 101 && a.b2 == 101 && a.b3 == 101 && a.b4 == 101)
    then record a { b1 = 127; b2 = 0; b3 = 0; b4 = 1 }
    else a

-- `proxy_connect`, around the function that it replaces.
unfoldable pub proxy_connect {ℓ} :
    {R : Type ℓ} → (ℕ → SocketAddress → ℕ → R) → ℕ → SocketAddress → ℕ → R
proxy_connect original s (inet a) namelen = original s (inet (redirect_address a)) 16
proxy_connect original s (other_family f rest) namelen = original s (other_family f rest) namelen

-- The arguments of `InternetConnect`; `others` are those that a proxy passes on as they are.
pub record InternetConnect {ℓ} (A : Type ℓ) : Type ℓ where
  pub server_name : Bytes
  pub server_port : ℕ
  pub others : A

abbrev pub addresses : List Bytes
addresses =
    codes "insider.msg.yahoo.com"
    ∷ codes "pgq.yahoo.com"
    ∷ codes "chat.yahoo.com"
    ∷ codes "calendar.yahoo.com"
    ∷ codes "my.yahoo.com"
    ∷ codes "address.yahoo.com"
    ∷ []

-- `std::find` of a name, and whether it is not the end.
unfoldable pub has_name : Bytes → List Bytes → Bool
has_name name [] = false
has_name name (a ∷ names) = equals a name || has_name name names

abbrev pub localhost_name : Bytes → Bytes
localhost_name name = name ++ codes ".localhost"

unfoldable pub redirect_connect {ℓ} : {A : Type ℓ} → InternetConnect A → InternetConnect A
redirect_connect c =
    if has_name c.server_name addresses
    then record c { server_name = localhost_name c.server_name; server_port = 41337 }
    else c

-- `proxy_InternetConnectA`
unfoldable pub proxy_internet_connect_a {ℓ κ} :
    {A : Type ℓ} {R : Type κ} → (InternetConnect A → R) → InternetConnect A → R
proxy_internet_connect_a original c = original (redirect_connect c)

-- `proxy_InternetConnectW`, on names of the same characters.
unfoldable pub proxy_internet_connect_w {ℓ κ} :
    {A : Type ℓ} {R : Type κ} → (InternetConnect A → R) → InternetConnect A → R
proxy_internet_connect_w original c = original (redirect_connect c)

module _ {W : Type 0} (pages : Pages W) (protect_null : ℕ → ℕ → ℕ → W → Bool × W) where
  -- `ApplyFlatPatch`. `protect_null` is `VirtualProtect` with a null pointer for the old protection.
  unfoldable pub apply_flat_patch : ℕ → Bytes → Memory → W → Bool × Memory × W
  apply_flat_patch address patch m w =
      let size = length patch in
      let (result, old, w') = pages.virtual_protect address size page_readwrite 0 w in
      if not result
      then (false, m, w')
      else (true, store address patch m, (protect_null address size old w').1)

-- `returnTrueInEax`
abbrev pub return_true_in_eax : Bytes
return_true_in_eax = 0xb8 ∷ 0x01 ∷ 0x00 ∷ 0x00 ∷ 0x00 ∷ 0xc2 ∷ 0x04 ∷ 0x00 ∷ []

-- A hook to be installed: the module, the function, and the address of the proxy.
pub record Hooking : Type 0 where
  pub module_name : Bytes
  pub function_name : Bytes
  pub proxy : ℕ

-- The addresses of the proxies.
pub record Proxies : Type 0 where
  pub connect : ℕ
  pub create_file_a : ℕ
  pub create_file_w : ℕ
  pub internet_connect_a : ℕ
  pub internet_connect_w : ℕ

-- `Hook_Winsock`, `Hook_CreateFile` and `Hook_WinINet`, with the addresses of the proxies.
abbrev pub hookings : Proxies → List Hooking
hookings p =
    record { module_name = codes "ws2_32.dll"; function_name = codes "connect"; proxy = p.connect }
    ∷ record {
      module_name = codes "kernel32.dll";
      function_name = codes "CreateFileA";
      proxy = p.create_file_a;
    }
    ∷ record {
      module_name = codes "kernel32.dll";
      function_name = codes "CreateFileW";
      proxy = p.create_file_w;
    }
    ∷ record {
      module_name = codes "Wininet.dll";
      function_name = codes "InternetConnectA";
      proxy = p.internet_connect_a;
    }
    ∷ record {
      module_name = codes "Wininet.dll";
      function_name = codes "InternetConnectW";
      proxy = p.internet_connect_w;
    }
    ∷ []

-- The process: it goes on, with how the hooks ended that were installed so far, or it has exited.
pub data Process (W : Type 0) : Type 0 where
  running : List HookEnd → Memory → W → Process W
  exited : HookError → Memory → W → Process W

module _ {W : Type 0} (windows : Windows W) (protect_null : ℕ → ℕ → ℕ → W → Bool × W) where
  abbrev pub behind_hook : List HookEnd → HookEnd → Memory → W → Process W
  behind_hook ends (exits e) m w = exited e m w
  behind_hook ends (installed thunk) m w = running (ends ++ installed thunk ∷ []) m w
  behind_hook ends (not_found e) m w = running (ends ++ not_found e ∷ []) m w

  unfoldable pub hook : Hooking → Process W → Outcome (Process W)
  hook h (exited e m w) = returns (exited e m w)
  hook h (running ends m w) =
      install_hook_by_name windows h.module_name h.function_name h.proxy m w >>= λ (end, m', w').
      returns (behind_hook ends end m' w')

  unfoldable pub hook_all : List Hooking → Process W → Outcome (Process W)
  hook_all [] p = returns p
  hook_all (h ∷ hs) p = hook h p >>= hook_all hs

  -- `GetModuleHandle` finds the client under one of its names.
  abbrev pub is_messenger : W → Bool
  is_messenger w =
      not (windows.get_module_handle (codes "Yahoo~1.exe") w == 0)
      || not (windows.get_module_handle (codes "YahooMessenger.exe") w == 0)
      || not (windows.get_module_handle (codes "ypager.exe") w == 0)

  -- `ApplyCopyPatcha`, which leaves the result of the patch.
  abbrev pub apply_copy_patcha : Memory → W → Memory × W
  apply_copy_patcha m w =
      let (ok, m', w') =
        apply_flat_patch windows.pages protect_null 0x4c3603 return_true_in_eax m w in
      (m', w')

  -- `InstallHooks`
  unfoldable pub install_hooks : Proxies → Memory → W → Outcome (Process W)
  install_hooks proxies m w =
      if not (is_messenger w)
      then returns (running [] m w)
      else (let (m', w') = apply_copy_patcha m w in hook_all (hookings proxies) (running [] m' w'))

  -- `DllMain`, where 1 is `DLL_PROCESS_ATTACH`.
  unfoldable pub dll_main : ℕ → Proxies → Memory → W → Outcome (Process W)
  dll_main reason proxies m w =
      if reason == 1 then install_hooks proxies m w else returns (running [] m w)
