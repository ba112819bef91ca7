-- ===== src/Lib.antt =====
-- rapi-bootloader: chain-loaders for the Raspberry Pi. The network-loader takes a kernel image over
-- TFTP (or HTTP and WebDAV); the menu-loader shows a menu from the SD card and reads the kernel from
-- there. Both stage the image in memory, stamp a defaults-string into its block at offset 0x800 where it
-- has one, and arm a chain-boot.
--
-- The parts and their files (paths from the repository's root):
--   Base, Ints, TextScan      shared names, lists and text over the native numbers; signed counters;
--                             white space, trimming and lines as both text parsers scan them
--   Memory                    byte-addressed memory: memcpy, 16-bit fields, C strings
--   Circle, FatFs             interfaces of the Circle framework and of FatFs, as parameters; make_parents
--                             is the mkdir loop of CTFTPBootServer::FileCreate
--   DefaultsBlock             defaultsblock/defaultsblock.h and .cpp: patch_defaults is PatchDefaults
--   BootImage                 defaultsblock/bootimage.cpp: boot_image_with_defaults
--   ChainBoot.StageAlloc      chainboot/stagealloc.cpp: stage_alloc
--   Tftp                      network-loader/tftpbootserver.h and .cpp. Server has the members of
--                             CTFTPBootServer; Create has FileOpen and FileCreate, Transfer has
--                             FlushWriteBuf, FileRead and FileWrite, Finish has FileClose and
--                             UpdateStatus; Session is the daemon's sequences of these calls
--   BootMenu                  menu-loader/bootmenu.h and .cpp: load, parse_line, get_label, get_string
--   NetConfig                 network-loader/netconfig.h and .cpp: read_net_config, match_token,
--                             parse_address
--   MenuLoader                menu-loader/kernel.h and .cpp: Picker and MenuWorld have the members of
--                             CKernel; Keys has KeyStatusHandlerRaw and the serial keys, Intents the
--                             draining in Run, Screen has DrawMenu, Selection BootSelection, Running the
--                             beginning and the turns of Run, Messages the texts on the screen, Keyboard
--                             the pointer to the keyboard; Session lets keyboard reports come between
--                             turns, and Points between any two steps of a turn; Kernel is the whole of
--                             Run on a Pi 5, over a Console of devices, and menu-loader/main.cpp
--   RapiChainboot             chainboot/rapi_chainboot.cpp: Statics has the static variables; capture_dtb,
--                             enable_chain_boot and is_chain_boot_enabled are the functions of these
--                             names; Handoff has the copy loop of the stub and the device-tree slot, Caches
--                             the same hand-off through the caches of the board, and Refines fills the
--                             interface ChainLoader
--   Sockets                   Circle's sockets, as a parameter, with the laws of a stream
--   WebDav                    network-loader/webdavserver.h and .cpp: UrlDecode, MapPath and
--                             AppendXmlEscaped; Receive has ReceiveHeaders, Request ParseRequest, Replies
--                             and Volume the texts of replies and the directory calls of FatFs, Upload
--                             WritePutChunk and FlushPutBuf, Handlers a function per method and Worker,
--                             Listener the count of the connections
--   HttpBoot                  network-loader/httpbootserver.h and .cpp: get_content is GetContent, and
--                             take_part a turn of its loop over the parts of a form
--   NetworkLoader             network-loader/kernel.cpp and main.cpp: configure_network,
--                             wait_for_network, quiesce_usb and run, over a Host of devices and tasks;
--                             Startup has Initialize and main, Tee the device of teedevice.h
--   EeeProbe                  network-loader/eeeprobe.h and .cpp, over the registers of the MAC
--   Settling                  the two seconds in which both kernels let the USB stack settle
--   Devices                   the chain of device starts that both kernels' Initialize is;
--                             MenuLoader.Startup is that of menu-loader/kernel.cpp
--   Tests                     concrete boards, cards and inputs
--
-- The parts meet in the staging buffer, an address of Memory: stage_alloc places it, the TFTP server, the
-- upload form or BootSelection fills it, patch_defaults writes in it, and enable_chain_boot of the
-- interface ChainLoader is given its address and size. The loop of Run then sees is_chain_boot_enabled,
-- main returns, and the payload is entered by do_chain_boot.
--
-- Numbers: an address, a size_t and a count are natural numbers; the fields of 16 and 32 bits (the
-- Length and Capacity of the block, the offset and the hash of a kernel push, the ticks of the timer)
-- have their wrap-around written out. The picker's int counters are unbounded integers, since their
-- overflow is undefined in the source. A char is a number below 256; a string is a list of them without
-- its NUL.
--
-- Loops over text and lists are structural. read_image, the loop that reads the kernel image, runs on
-- the file's size as fuel: each read that does not end the loop takes at least one byte; so do the loops
-- of a WebDAV request, on the buffer's size, the content length or the file's size. The loops that wait
-- for the clock run on fuel that is enough once the clock has run long enough; mdio_wait takes exhausted
-- fuel for its time-out, and wait_for_network, which has no deadline, gives `none`. The loops of Run take
-- a turn's worth of fuel for each turn. A failed assertion
-- of FileClose is `none`, and Fatal, which never returns, is an outcome.
--
-- Not modelled: what the devices do, and logging; the maintenance of the instruction cache and the
-- change of exception level in chainboot/rapi_chainboot.cpp. The data caches of the board are a
-- parameter with documented laws. The increments of the picker's counters are taken as one step each.
-- The workers of the WebDAV server run one after the other, not interleaved. The main loops of both
-- kernels are those of a Pi 5, where the chain-boot is the repository's. How a screen wraps long rows is
-- the device's. Nothing is assumed of what the registers of the PHY do, nor of what a connection brings
-- after a receive that had less room than a frame and lost data.
pub mod Base
pub mod Ints
pub mod Memory
pub mod Circle
pub mod FatFs
pub mod DefaultsBlock
pub mod ChainBoot
pub mod RapiChainboot
pub mod BootImage
pub mod HttpBoot
pub mod NetworkLoader
pub mod Tftp
pub mod TextScan
pub mod BootMenu
pub mod MenuLoader
pub mod NetConfig
pub mod Settling
pub mod Sockets
pub mod Devices
pub mod EeeProbe
pub mod WebDav
pub mod Tests
