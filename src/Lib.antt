-- ===== src/Lib.antt =====
-- DisPing is a Windows tool that lowers network latency: it writes registry values, asks
-- Windows for processes and adapters, runs netsh, repairs what Steam left in the registry, and
-- leaves VPN software alone.
--
-- The operating system is an abstract state W. The files under Windows hold the functions of
-- Windows and of the C++ library that the program calls, as records of operations; where a
-- proof relies on documented behaviour it is a law (RegistryLaws, TimerLaws) or a hypothesis of
-- the theorem. A function of the program that acts on the system is a function from W to a
-- result and the next W (Common/State.antt), written as a do block. Common/State/Keeps.antt has
-- the rules for properties that such code keeps.
--
-- Registry.antt models src/registry_util.cpp function by function; Registry/Handles.antt and
-- Registry/Values.antt hold the lemmas on handles and on values. Store.antt is the interface
-- that the optimizers see of it, filled by Registry/Values.antt; Store/Keeps.antt says which
-- writes leave a place alone. Vpn.antt and Vpn/Report.antt model src/vpn_guard.cpp, which the
-- optimizers ask before they touch an adapter or a process. Adapter.antt, Adapter/Wifi.antt and
-- Adapter/Active.antt model src/adapter_optimizer.cpp. Mtu.antt models src/mtu_optimizer.cpp,
-- Dns.antt src/dns_optimizer.cpp, Network.antt src/network_optimizer.cpp, Qos.antt
-- src/qos_optimizer.cpp, Backup.antt src/backup_manager.cpp, Latency.antt and
-- Latency/Daemon.antt src/system_latency_optimizer.cpp, Memory.antt src/memory_optimizer.cpp,
-- Process.antt and Process/Games.antt src/process_optimizer.cpp, Hardware.antt and the files
-- under it src/hardware_detector.cpp, Ping.antt and Ping/Single.antt src/ping_monitor.cpp,
-- Proxy.antt the life of the worker thread of src/udp_proxy.cpp and Proxy/Sockets.antt what the
-- thread does; Proxy/Relayed.antt has the runs that a thread can make. The files under Healer
-- model src/platform_healer.cpp: Steam.antt the search for Steam and its running games,
-- Zombies.antt the processes that hang, Vdf.antt the scan of configuration files, Cache.antt
-- the caches, Whole.antt HealSteamAndGames as a whole. Benchmark.antt and the files under it
-- model src/benchmark_runner.cpp, Dispatch.antt src/disping_asm_dispatch.cpp and Console.antt
-- and Console/Tables.antt src/ui_console.cpp. The structs of include/disping_types.hpp stand
-- with the component that fills them.
--
-- Program.antt collects what main is given: the functions of Windows, the console, and the
-- routines that are parameters. Cli.antt is main of src/main.cpp: it heals, then either runs
-- one command (Cli/Commands.antt, Cli/Boost.antt, Cli/Status.antt) and exits, or shows the menu
-- (Cli/Menu.antt and the files under it), whose choices call the components above in the order
-- of the source.
--
-- EnumerateSubKeys runs on fuel 2 ^ 32, since its index is a DWORD and a key has fewer subkeys.
-- The binary search for the MTU runs on fuel 273, the number of payloads from 1200 to 1472, one
-- of which each round rules out. The checksum folds its carry in at most three tests of its
-- loop, since a 32-bit sum has no carry after two. The menu runs on fuel, the number of choices
-- that are read, and the thread of the relay on the number of rounds that it makes before it is
-- stopped. Texts are compared byte by byte, with tolower of the C locale. A time in
-- milliseconds is a number of units of 100 ns in Latency.antt; in Ping.antt, Dns.antt and the
-- files under Benchmark a double is a value of an abstract type. An exception that nothing
-- catches is a result of its own.
--
-- Not modelled: the average latency of the relay, the threads of BenchmarkMultipleTargets, the
-- assembly routines and BenchmarkAssemblyRoutines, which times them, and the built-in tests
-- behind the key t. The command line takes those it calls as parameters.
--
-- Tests/Machine.antt is a small registry that satisfies the laws; the other files under Tests
-- hold the theorems at work on concrete inputs.
pub mod Common
pub mod Windows
pub mod Registry
pub mod Store
pub mod Vpn
pub mod Adapter
pub mod Hardware
pub mod Mtu
pub mod Dns
pub mod Network
pub mod Qos
pub mod Latency
pub mod Backup
pub mod Ping
pub mod Proxy
pub mod Process
pub mod Memory
pub mod Healer
pub mod Console
pub mod Dispatch
pub mod Benchmark
pub mod Program
pub mod Cli
pub mod Tests
