-- ===== src/Client.antt =====
-- pkg/github: the client that the controllers use, its credentials, and the webhook server.
pub mod Types
pub mod Credentials
pub mod Runners
pub mod Server
pub mod Serving
pub mod Ending
pub mod Shutdown
pub mod Github
pub mod Events
pub mod Claims
pub mod Sources
pub mod Chosen
pub mod Urls
pub mod Requests
