-- ===== src/FdManager/Runs.antt =====
-- Runs of the operations of yk/fdmanager.cc.
use yk_server.Base.{◌≡◌, ◌≢◌, true, false, some}
use yk_server.FdManager.{descriptor, Kernel, FdManager, fd_manager, create_context, get, slot}
use yk_server.FdManager.Contexts.{
  Created, fd_manager-IsValid, create_context-Created, get-Created, create_context_twice,
}

-- All descriptors are sockets, and block.
abbrev sockets : Kernel
sockets = record { stat = λ _. some true; nonblocking = λ _. false }

abbrev new_manager : FdManager
new_manager = fd_manager sockets

-- With a context for descriptor 100, behind the first 64.
abbrev manager : FdManager
manager = (create_context 100 new_manager).1

new_manager-Created : Created new_manager 100 (create_context 100 new_manager)
new_manager-Created = create_context-Created new_manager (fd_manager-IsValid sockets).0 100

get-Created_example : Created new_manager 100 (get (descriptor 100) true new_manager)
get-Created_example =
    get-Created new_manager (fd_manager-IsValid sockets).0 100 ((fd_manager-IsValid sockets).1 100)

create_context_twice_example :
    (create_context 100 new_manager).0 ≢ (create_context 100 manager).0
    × (slot (create_context 100 manager).1.datas 100 ≡ (create_context 100 manager).0)
create_context_twice_example = create_context_twice new_manager (fd_manager-IsValid sockets).0 100
