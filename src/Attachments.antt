-- ===== src/Attachments.antt =====
-- apps/worker/src/modules/attachments: the stored files and what tells them apart.
pub mod Bodies
pub mod Catalog
pub mod Md5
pub mod Tests
pub mod Uploads
