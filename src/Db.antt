-- ===== src/Db.antt =====
-- internal/db: the connection pool, and the migrations.
pub mod Pool
pub mod River
pub mod Migrate
