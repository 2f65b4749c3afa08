-- ===== src/Api.antt =====
-- app/api: the handlers of the HTTP endpoints.
pub mod Webhook
pub mod Rules
