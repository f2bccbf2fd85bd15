-- ===== src/Http.antt =====
-- luce/net/http: the request parser, the response writer, the context, the router and the server.
pub mod Request
pub mod Response
pub mod Context
pub mod Router
pub mod Server
