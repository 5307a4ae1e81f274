-- ===== src/Server/Accept/Mixed.antt =====
-- src/whz_server.cpp: the plain connections of a server that listens over TLS.
use work_horz.Server.Accept.{Accept, Server}
