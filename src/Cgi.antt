-- ===== src/Cgi.antt =====
-- The web server's scripts, which run as nested domains in Capstone-C:
-- package/capstone-nested-enclave/capstone_split/cgi/cgi_register_success.dom.c and
-- cgi_register_fail.dom.c. An `unsigned` there has 8 bytes, and a region is an array of them.
pub mod Socket
pub mod Parse
pub mod Register
pub mod Dpi
mod Tests
