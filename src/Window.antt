-- ===== src/Window.antt =====
-- State holders of the window: the frame scheduler, the progress of a file send,
-- the preferences, the reconnection and the scrolling of the log.
pub mod FrameScheduler
pub mod FrameLaws
pub mod FileSend
pub mod FileSendLaws
pub mod Preferences
pub mod PreferenceLaws
pub mod Reconnect
pub mod LogScroll
pub mod LogScrollLaws
pub mod Examples
