-- ===== src/Output.antt =====
-- src/ngx_http_drizzle_output.c: the output side of a request. Rows of the database are encoded as RDS atoms
-- into buffers; full buffers go to the client through nginx's output filter.
pub mod Bytes
pub mod Headers
pub mod Buffers
pub mod Stream
pub mod Atoms
pub mod Deliver
pub mod Codes
pub mod Drained
pub mod Succeeds
mod Tests
pub mod Reader
