-- ===== src/App.antt =====
-- The applications of wraft/src: the page that starts a cluster, the todo list's and the benchmark's.
-- What a page draws is left out but for the messages that its elements send.
pub mod Startup
pub mod Page
pub mod Bench
