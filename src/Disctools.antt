-- ===== src/Disctools.antt =====
-- disctools.c, the commands for files: `Dir` is dir, ll and ls, with the columns of ls in `Grid` and
-- the lines of ll in `Long`, `Remove` is rm, `Copy` is cp and mv, and `Mode` is umask, chmod, mkdir and
-- rmdir.
pub mod Grid
pub mod Dir
pub mod Remove
pub mod Mode
pub mod Long
pub mod Copy
mod Tests
