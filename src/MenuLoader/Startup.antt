-- ===== src/MenuLoader/Startup.antt =====
-- menu-loader/kernel.cpp, `CKernel::Initialize`. The card is needed: there is no menu without it.
use rapi_bootloader.Base.{Bool, List, [], ◌∷◌}
use rapi_bootloader.Devices.{Devices, start_all, mount_card}

module _ {World : Type 0} (d : Devices World) where
  abbrev pub menu_devices : List (World → World × Bool)
  menu_devices = d.screen ∷ d.serial ∷ d.logger ∷ d.interrupt ∷ d.timer ∷ d.usb ∷ mount_card d ∷ []

  unfoldable pub initialize_menu : World → World × Bool
  initialize_menu w = start_all menu_devices w
