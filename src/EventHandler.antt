-- ===== src/EventHandler.antt =====
-- event_handler: rules of routes and their matching, cookies and headers, responses, the resolver.
pub mod Rule
pub mod Cookie
pub mod Header
pub mod Response
pub mod Request
pub mod Resolver
pub mod Dispatch
pub mod Router
pub mod AppSync
