-- ===== src/Workspace.antt =====
-- rust/src/workspace: the bundle on disk, and the operations on its Notes and Directories.
pub mod Names
pub mod Scratch
pub mod Journal
pub mod Examples
pub mod Title
pub mod Destinations
pub mod LinksRewrite
