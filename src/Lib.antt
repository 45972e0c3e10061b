-- ===== src/Lib.antt =====
-- The Xposed framework for Android: the parts of the Zygote that load it, and the services that it
-- needs once the Zygote has lost its rights.
--
-- The program's parts and their modules:
--   * xposed.cpp decides at the start of the Zygote whether Xposed is loaded: Startup.Defs has the
--     commands to ignore, the class path and the runtime, Startup.Boot has `initialize`, which
--     starts the services, restricts the shared memory and looks for safe mode, Startup.Rights the
--     installer's ids and the capabilities, Startup.Properties the version file. Startup.FlagFiles has
--     the files that switch Xposed off or on, and Startup.Persists a row of starts with them.
--   * xposed_service.cpp, namespace membased: a service thread that reads files for the Zygote, in
--     memory that both share. Membased.Shared is the memory, Membased.Process says who may use it,
--     Membased.Server is `looper`, Membased.Client and Membased.ReadFile are `accessFile`,
--     `statFile` and `readFile`. There a client has the service to itself; Protocol.Defs has any
--     number of clients as a step relation, with the mutex and the condition variable.
--   * xposed_service.cpp, class XposedService: the methods offered over binder (Binder.Defs).
--     The link between both sides is Binder.Stub (`BnXposedService`) and Binder.Proxy
--     (`BpXposedService`), over the interface Binder.Parcel of the binder library;
--     Binder.Served puts the methods behind it.
--     Services.Daemons has the processes that serve, and what they give up before.
--   * xposed_safemode.cpp: Safemode.Defs is the search for input devices, Safemode.Detect is
--     `detectSafemodeTrigger`; Safemode.Opened says which devices are opened, Safemode.Presses which
--     presses the rounds of events bring, Safemode.Started and Safemode.Repeated what each loop
--     makes of them.
--   * app_main2.cpp: AppProcess.Args reads the command line, AppProcess.Main is `main`; AppProcess.Older
--     is `main` of app_main.cpp. AppProcess.Runtime has the class `AppRuntime` of both, AppProcess.Cache
--     the cache directory, and AppProcess.ArgBlock the memory of the arguments, which is overwritten
--     by the name of the process (with `setProcessName` of xposed.cpp).
--   * libxposed_common.cpp: Bridge.Init is the set-up inside the virtual machine (with `onVmCreated` of
--     xposed.cpp), Bridge.Files the files that Java reads through the memory-based service,
--     Resources.Rewrite the rewriting of XML resources. Bridge.Forks is what libxposed_art.cpp does
--     with Fd.Table around a fork, Bridge.Natives the tables of native methods.
--   * libxposed_dalvik.cpp: Dalvik.Hook hooks methods and calls originals, Dalvik.Callback is what a
--     hooked method does, Dalvik.Start and Dalvik.Objects are the rest.
--   * libxposed_art.cpp: Art.Defs has the hooks, over the interface of ART that the library uses.
--   * xposed_logcat.cpp: Logcat.Start has the processes, Logcat.Daemon is `runDaemon`.
--   * fd_utils-inl.h: Fd.Info is `FileDescriptorInfo`, Fd.Table is `FileDescriptorTable`. Fd.Kernel is
--     the interface of the system's open files, by which Fd.RoundTrip (one file) and Fd.Fork (the table)
--     say what the calls of both leave; Fd.Machine is a system that behaves so.
-- Prelude has the shared names, numbers, lists and texts; Run is the outcome of code that may touch
-- memory wrongly; FileSystem and Platform are the system calls and constants, which are not in this
-- repository and are parameters. Tests has runs at concrete inputs.
--
-- Bounds: `readFile` of the client takes fuel, one unit for each chunk; it is enough if the
-- contents are shorter than the fuel times the size of a chunk, and 2 ^ 31 is enough for any file
-- whose reads give a byte, an error or the end. The loops of the safe mode take the rounds of
-- events as a list. The memory's block is a list of bytes of its size, and a copy that
-- leaves it is a fault, as is a signed overflow in `readFile`. The descriptors' flags are natural
-- numbers; `F_SETFL` changes those of a mask only. A step of Protocol is what a thread does between
-- two points at which it holds the mutex.
--
-- Not modelled: log messages, and what the Android runtime, ART and JNI do with the calls. The
-- registers and structures of Dalvik are the fields that the code uses. The reading of a member of
-- the union that was not written last is a parameter (Membased.Shared.Layout).
pub mod Prelude
pub mod Platform
pub mod FileSystem
pub mod Run
pub mod Membased
pub mod Protocol
pub mod Safemode
pub mod Binder
pub mod Fd
pub mod Startup
pub mod Tests
pub mod Services
pub mod Dalvik
pub mod Bridge
pub mod Logcat
pub mod Resources
pub mod AppProcess
pub mod Art
