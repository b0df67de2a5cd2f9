-- ===== src/Connection/Refused.antt =====
-- What an error response does to a connection.
use grtcserver.Wire.{Wire}
