-- ===== src/Examples.antt =====
-- A sample of Qt on which the properties are tried, and their runs on concrete data.
mod Chars
mod Wire
mod Sample
mod Formats
mod Servers
mod Connections
mod Ends
mod Proxies
mod Clients
mod Finders
mod Buses
