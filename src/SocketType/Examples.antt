-- ===== src/SocketType/Examples.antt =====
-- The types of two sockets.
