-- ===== src/Tests/Daemons.antt =====
-- The services' processes at concrete inputs.
use xposed.Prelude.{◌≡◌, true, false}
use xposed.Services.Confined.{is_confined, privileged, services-is_confined}
use xposed.Services.Daemons.{Steps, system_service, app_service, zygote_service}

abbrev pub all_steps : Steps
all_steps = record {
  selinux_enabled = true;
  switches = true;
  setcon = true;
  registers = true;
  creates_thread = true;
  init_memory = true;
  forks_first = true;
  forks_second = true;
  waits_running = true;
}

services-is_confined_example :
    (is_confined false true privileged (system_service true all_steps) ≡ true)
    × (is_confined true true privileged (app_service true all_steps) ≡ true)
    × (is_confined true true privileged (zygote_service true all_steps) ≡ true)
services-is_confined_example = services-is_confined true all_steps
