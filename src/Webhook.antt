-- ===== src/Webhook.antt =====
-- service/webhook.go, service/webhook_service.go, dao/webhook_event_dao.go and the records of
-- model/webhook_rule.go and model/webhook_event.go: what becomes of a webhook that comes in.
pub mod Entities
pub mod Rules
pub mod Triggers
pub mod Events
pub mod Delivery
pub mod Tests
