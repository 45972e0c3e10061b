-- ===== src/Services/Daemons.antt =====
-- xposed_service.cpp, lines 788-941: the processes of the services. Whether a step succeeds is a
-- parameter; a process is the list of what it did.
use xposed.Prelude.{if◌then◌else◌, Bool, true, false, not, ◌&&◌, List, [], ◌∷◌}

-- What a child does, in order. `serves_binder` and `serves_memory` do not return.
pub data Deed : Type 0 where
  sets_name : Deed
  switches_user : Deed
  drops_capabilities : Deed
  sets_context : Deed
  adds_service : Deed
  starts_looper : Deed
  serves_binder : Deed
  serves_memory : Deed
  exits_failure : Deed

-- Whether the calls succeed. `waits_running` is what `waitForRunning(5)` returns.
pub record Steps : Type 0 where
  pub selinux_enabled : Bool
  pub switches : Bool
  pub setcon : Bool
  pub registers : Bool
  pub creates_thread : Bool
  pub init_memory : Bool
  pub forks_first : Bool
  pub forks_second : Bool
  pub waits_running : Bool

module _ (with_selinux : Bool) (k : Steps) where
  -- Lines 792-799 and 828-835: the context, where SELinux is enabled, and what follows.
  unfoldable pub enter_context : List Deed → List Deed
  enter_context rest =
      if with_selinux && k.selinux_enabled
      then if not k.setcon then sets_context ∷ exits_failure ∷ [] else sets_context ∷ rest
      else rest

  unfoldable pub system_service : List Deed
  system_service =
      let registered : List Deed =
        if not k.registers
        then adds_service ∷ exits_failure ∷ []
        else adds_service ∷ serves_binder ∷ [] in
      sets_name ∷ drops_capabilities ∷ enter_context registered

  unfoldable pub app_service : List Deed
  app_service =
      let threads : List Deed =
        if with_selinux && k.selinux_enabled
        then if not k.creates_thread
          then starts_looper ∷ exits_failure ∷ []
          else starts_looper ∷ serves_binder ∷ []
        else serves_binder ∷ [] in
      let registered : List Deed =
        if not k.registers then adds_service ∷ exits_failure ∷ [] else adds_service ∷ threads in
      if not k.switches
      then sets_name ∷ switches_user ∷ exits_failure ∷ []
      else sets_name ∷ switches_user ∷ drops_capabilities ∷ enter_context registered

  -- Lines 926-937: the child of `startMembased`.
  unfoldable pub zygote_service : List Deed
  zygote_service =
      if not k.switches
      then sets_name ∷ switches_user ∷ exits_failure ∷ []
      else if not k.setcon
      then sets_name ∷ switches_user ∷ drops_capabilities ∷ sets_context ∷ exits_failure ∷ []
      else sets_name ∷ switches_user ∷ drops_capabilities ∷ sets_context ∷ serves_memory ∷ []

-- What a parent starts: the processes, and whether it reports success.
pub record Started : Type 0 where
  pub success : Bool
  pub children : List (List Deed)

unfoldable pub check_membased_running : Steps → Bool
check_membased_running k = k.waits_running

-- `startAll`.
unfoldable pub start_all : Bool → Steps → Started
start_all with_selinux k =
    if k.selinux_enabled && not k.init_memory
    then record { success = false; children = [] }
    else if not k.forks_first
    then record { success = false; children = [] }
    else if not k.forks_second
    then record { success = false; children = system_service with_selinux k ∷ [] }
    else record {
      success = not (k.selinux_enabled && not (check_membased_running k));
      children = system_service with_selinux k ∷ app_service with_selinux k ∷ [];
    }

-- `startMembased`, which exists with SELinux only.
unfoldable pub start_membased : Steps → Started
start_membased k =
    if not k.selinux_enabled
    then record { success = true; children = [] }
    else if not k.init_memory
    then record { success = false; children = [] }
    else if not k.forks_first
    then record { success = false; children = [] }
    else record { success = check_membased_running k; children = zygote_service true k ∷ [] }
