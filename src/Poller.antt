-- ===== src/Poller.antt =====
-- myserver's event demultiplexing: channels, and the poller that registers them with epoll.
pub mod Channel
pub mod Epoll
pub mod Registration
mod Tests
