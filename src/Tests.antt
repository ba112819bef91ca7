-- ===== src/Tests.antt =====
-- The theorems at concrete inputs, and runs of the code.
mod Board
mod Boot
mod Uploads
mod Texts
mod Picker
mod Dav
mod Chainboot
mod Caches
mod DavServer
mod Network
mod Upload
mod Eee
mod Mdio
mod Requests
mod Kernel
